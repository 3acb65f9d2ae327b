-- ===== src/Servers/Contents.antt =====
-- What a server that is not a multiprocess one tells of itself, when no call raises.
use numaflow_python.Base.{
  ◌≡◌, inl, inr, refl, ap, ◌∙◌, Bool, true, false, Option, none, some, List, [], ◌∷◌, ◌++◌, All,
  Some, if◌then◌else◌, Bool-cases,
}
use numaflow_python.Base.Text.{Str, str, str_eq, str_eq_refl, ℤ, pos}
use numaflow_python.Base.Dict
use mathlib.Core.Option
use numaflow_python.Base.Dict.{Dict, get-put}
use numaflow_python.Shared.Server.{ok}
use numaflow_python.Info.{
  map_mode_key, MapMode, map_mode, minimum_numaflow_version, ServerInfo, eof,
}
use numaflow_python.Servers.{max_num_threads, capped}
use numaflow_python.Servers.Starting.{
  Service, Call, create_server, open_file, wait_for_termination, write_text, append_cleanup, System,
  Arguments,
}
use numaflow_python.Servers.Starting.Sequence.{Returns, performed-Returns}
use numaflow_python.Servers.Announcing.{telling, told, sync_calls}
use numaflow_python.Servers.Classes.{
  ServerClass, is_sync, service, container, mode, User, socket, info_file, Accepted, serve,
  contents,
}
use numaflow_python.Servers.Listening.{mode_metadata, options, announced, calls_of, serve-Performs}

All-Returns :
    (sys : System) → ((x : Call) → Returns sys x) → (cs : List Call) → All (Returns sys) cs
All-Returns sys h [] = tt
All-Returns sys h (c ∷ cs) = (h c, All-Returns sys h cs)

-- The file after the calls: the text and the end mark, and for a synchronous server whose file has no
-- name, nothing.
abbrev pub expected : Bool → Str → Str → Option Str
expected true [] text = none
expected true (x ∷ path) text = some (text ++ eof)
expected false path text = some (text ++ eof)

-- The size of the pool of threads, which asynchronous servers do not have.
abbrev pub workers : Bool → Arguments → Option ℤ
workers true args = some (capped args.max_threads max_num_threads)
workers false args = none

contents-open_file :
    (now : Option Str) (path : Str) (cs : List Call)
    → contents now path (open_file path ∷ cs) ≡ contents (some []) path cs
contents-open_file now path cs =
    ap (λ b. contents (if b then some [] else now) path cs) (str_eq_refl path)

contents-write_text :
    (t path text : Str) (cs : List Call)
    → contents (some t) path (write_text path text ∷ cs) ≡ contents (some (t ++ text)) path cs
contents-write_text t path text cs =
    ap (λ b. contents (if b then some (t ++ text) else some t) path cs) (str_eq_refl path)

module _ (sys : System) where
  contents-telling :
      (info : ServerInfo) (path : Str) (cs : List Call)
      → contents none path (telling sys info path ++ cs)
        ≡ contents (some (sys.dumps info ++ eof)) path cs
  contents-telling info path cs =
      contents-open_file none path (write_text path (sys.dumps info) ∷ write_text path eof ∷ cs)
      ∙ contents-write_text [] path (sys.dumps info) (write_text path eof ∷ cs)
      ∙ contents-write_text (sys.dumps info) path eof cs

  -- What is made of the information of a server by the calls of a run.
  abbrev pub Tells : ServerClass → Arguments → List Call → Type 0
  Tells c args calls =
      (info : ServerInfo) × (contents none (info_file sys c args) calls
        ≡ expected (is_sync c) (info_file sys c args) (sys.dumps info))
      × (info.minimum_numaflow_version ≡ minimum_numaflow_version (container c))
      × (info.version ≡ sys.version)
      × (Dict.get info.metadata map_mode_key ≡ Option.map map_mode (mode c))

  abbrev pub Ends : List Call → Type 0
  Ends calls = (before : List Call) × (calls ≡ before ++ wait_for_termination ∷ [])

  metadata_of :
      (m : Option MapMode) → Dict.get (mode_metadata m) map_mode_key ≡ Option.map map_mode m
  unfolding Dict.get str_eq
  metadata_of none = refl
  metadata_of (some m) = get-put [] map_mode_key map_mode_key (map_mode m)

  sync_contents :
      (options : List (Str × ℤ)) (threads : ℤ) (address : Str) (s : Service) (info : ServerInfo)
      (path : Str)
      → contents none path (sync_calls sys options threads address s info path)
        ≡ expected true path (sys.dumps info)
  sync_contents options threads address s info [] = refl
  sync_contents options threads address s info (x ∷ path) =
      contents-telling info (x ∷ path) (wait_for_termination ∷ [])

  calls_of-Tells : (c : ServerClass) (args : Arguments) → Tells c args (calls_of sys c args)
  calls_of-Tells c args = (
    announced sys c,
    elim (Bool-cases (is_sync c)) [
      | inl h ↦ rw h (
          sync_contents (options args) (capped args.max_threads max_num_threads)
            (str "unix://" ++ socket sys c args) (service c) (announced sys c)
            (info_file sys c args))
      | inr h ↦ rw h (
          contents-telling (announced sys c) (info_file sys c args)
            (append_cleanup (pos 5) ∷ wait_for_termination ∷ []))
    ],
    refl,
    refl,
    metadata_of (mode c),
  )

  calls_of-Ends : (c : ServerClass) (args : Arguments) → Ends (calls_of sys c args)
  calls_of-Ends c args = elim (Bool-cases (is_sync c)) [
    | inl h ↦ rw h (_ ∷ _ ∷ _ ∷ _ ∷ told sys (announced sys c) (info_file sys c args), refl)
    | inr h ↦ rw h (_ ∷ _ ∷ _ ∷ _ ∷ _ ∷ _ ∷ _ ∷ _ ∷ [], refl)
  ]

  calls_of-workers :
      (c : ServerClass) (args : Arguments)
      → Some
          (λ x. x ≡ create_server (workers (is_sync c) args) (options args))
          (calls_of sys c args)
  calls_of-workers c args = elim (Bool-cases (is_sync c)) [
    | inl h ↦ rw h (inl refl)
    | inr h ↦ rw h (inl refl)
  ]

  -- Each server but the multiprocess ones, if the user's handler is one that it takes and no call raises: it
  -- waits for the end of the rpcs, last of all, and then returns; its file holds the JSON text of its information and the end
  -- mark (nothing, for a synchronous server whose file has no name); that information has the minimum
  -- version for its container type and, for a mapper, its map mode, for the others none; a synchronous
  -- server has as many threads as asked for, at most 16, and an asynchronous one no pool.
  pub serve-Tells :
      {V : Type 0} (c : ServerClass) (user : User V) (args : Arguments)
      → Accepted c user
      → ((x : Call) → Returns sys x)
      → ((serve sys c user args).result ≡ ok tt)
        × Ends (serve sys c user args).calls
        × Tells c args (serve sys c user args).calls
        × Some
            (λ x. x ≡ create_server (workers (is_sync c) args) (options args))
            (serve sys c user args).calls
  serve-Tells c user args a h =
      let e =
        (serve-Performs sys c user args a).eq
        ∙ performed-Returns sys (calls_of sys c args) (All-Returns sys h (calls_of sys c args)) in
      rw e (refl, calls_of-Ends c args, calls_of-Tells c args, calls_of-workers c args)
