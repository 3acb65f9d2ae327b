-- ===== src/Servers/Announcing.antt =====
-- A server tells of itself when it listens, and what it tells.
use numaflow_python.Base.{◌≡◌, refl, none, some, List, [], ◌∷◌, ◌++◌, if◌then◌else◌}
use numaflow_python.Base.Text.{Str, ℤ, pos}
use numaflow_python.Info.{ServerInfo, eof}
use numaflow_python.Servers.Starting.{
  Service, UdfType, servicer_of, Call, create_server, add_insecure_port, add_servicer, start_server,
  open_file, write_text, append_cleanup, wait_for_termination, System, ◌>>◌, call, is_empty, write,
  write_given, given, run_server, sync_server_start, start_async_server,
}
use numaflow_python.Servers.Starting.Sequence.{Performs, call-Performs, then_Performs}

module _ (sys : System) where
  -- The calls that put the information into its file.
  abbrev pub telling : ServerInfo → Str → List Call
  telling info path = open_file path ∷ write_text path (sys.dumps info) ∷ write_text path eof ∷ []

  write-Performs :
      (info : ServerInfo) (path : Str) → Performs sys (write sys info path) (telling info path)
  unfolding write
  write-Performs info path =
      then_Performs sys (then_Performs sys (call-Performs sys _) (call-Performs sys _))
        (call-Performs sys _)

  abbrev pub async_calls : List (Str × ℤ) → Str → Service → ServerInfo → Str → List Call
  async_calls options address s info path =
      create_server none options
        ∷ add_insecure_port address
        ∷ add_servicer s
        ∷ start_server
        ∷ telling info path
      ++ append_cleanup (pos 5) ∷ wait_for_termination ∷ []

  pub async_calls-Performs :
      (options : List (Str × ℤ)) (address : Str) (s : Service) (info : ServerInfo) (path : Str)
      → Performs sys
          (call sys (create_server none options)
            >> call sys (add_insecure_port address)
            >> call sys (add_servicer s)
            >> start_async_server sys path (some info))
          (async_calls options address s info path)
  unfolding start_async_server
  async_calls-Performs options address s info path =
      then_Performs sys
        (then_Performs sys (then_Performs sys (call-Performs sys _) (call-Performs sys _))
          (call-Performs sys _))
        (then_Performs sys
          (then_Performs sys (then_Performs sys (call-Performs sys _) (write-Performs info path))
            (call-Performs sys _))
          (call-Performs sys _))

  abbrev pub told : ServerInfo → Str → List Call
  told info path = if is_empty path then [] else telling info path

  abbrev pub sync_calls : List (Str × ℤ) → ℤ → Str → Service → ServerInfo → Str → List Call
  sync_calls options threads address s info path =
      create_server (some threads) options
        ∷ add_servicer s
        ∷ add_insecure_port address
        ∷ start_server
        ∷ told info path
      ++ wait_for_termination ∷ []

  write_given-Performs :
      (info : ServerInfo) (path : Str)
      → Performs sys (write_given sys (given (some info) (some path))) (told info path)
  unfolding write_given given is_empty
  write_given-Performs info [] = record { eq = refl }
  write_given-Performs info (c ∷ path) = write-Performs info (c ∷ path)

  pub sync_calls-Performs :
      (options : List (Str × ℤ)) (threads : ℤ) (address : Str) (udf : UdfType) (s : Service)
      (info : ServerInfo) (path : Str)
      → servicer_of udf ≡ some s
      → Performs sys
          (sync_server_start sys address threads path options (some info) udf)
          (sync_calls options threads address s info path)
  unfolding sync_server_start run_server
  sync_calls-Performs options threads address udf s info path e = rw e (
      then_Performs sys
        (then_Performs sys
          (then_Performs sys
            (then_Performs sys (then_Performs sys (call-Performs sys _) (call-Performs sys _))
              (call-Performs sys _))
            (call-Performs sys _))
          (write_given-Performs info path))
        (call-Performs sys _))
