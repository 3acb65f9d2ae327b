-- ===== src/Servers/Order.antt =====
-- A server that is not a multiprocess one listens before it tells of itself.
use numaflow_python.Base.{
  ◌≡◌, ◌⊎◌, inl, inr, refl, sym, ap, ◌∙◌, subst, none, some, List, [], ◌∷◌, ◌++◌, All, Some,
  Bool-cases,
}
use numaflow_python.Base.Text.{Str, str}
use numaflow_python.Servers.{max_num_threads, capped}
use numaflow_python.Servers.Starting.{
  Call, create_server, add_insecure_port, add_servicer, start_server, open_file, System, Io, pass,
  Arguments, Server, common_init,
}
use numaflow_python.Servers.Starting.Sequence.{Returns, performed-before, opened, no_open}
use numaflow_python.Servers.Announcing.{sync_calls}
use numaflow_python.Servers.Given.{Handler, or_empty, with_server}
use numaflow_python.Servers.Classes.{
  ServerClass, accumulator_async, batch_map_async, map_async, map_sync, map_stream_async,
  reduce_async, reduce_stream_async, side_input_sync, sink_async, sink_sync, source_async,
  source_transform_async, source_transform_sync, is_sync, service, User, start_if_built, socket,
  info_file, Accepted, serve,
}
use numaflow_python.Accumulator
use numaflow_python.Reduce
use numaflow_python.ReduceStream
use numaflow_python.Servers.Listening.{options, announced, calls_of, serve-Performs}

module _ (sys : System) where
  -- The server listens, for the service and at the address.
  abbrev pub Listens : ServerClass → Arguments → List Call → Type 0
  Listens c args before =
      Some (λ x. x ≡ start_server) before
      × Some (λ x. x ≡ add_servicer (service c)) before
      × Some (λ x. x ≡ add_insecure_port (str "unix://" ++ socket sys c args)) before

  -- The plans open a file when the server listens.
  calls_of-Listens :
      (c : ServerClass) (args : Arguments) (before rest : List Call) (path : Str)
      → calls_of sys c args ≡ before ++ open_file path ∷ rest
      → Listens c args before × (path ≡ info_file sys c args)
  calls_of-Listens c args before rest path e = elim (Bool-cases (is_sync c)) [
    | inl h ↦ sync_case (info_file sys c args) refl (rw h at e)
    | inr h ↦
        let (b, p) =
          opened
            (create_server none (options args)
              ∷ add_insecure_port (str "unix://" ++ socket sys c args)
              ∷ add_servicer (service c)
              ∷ start_server
              ∷ [])
            _ before rest path _ (tt, (tt, (tt, (tt, tt)))) (tt, (tt, (tt, (tt, tt))))
            (rw h at e) in
        (
          subst (Listens c args) (sym b)
              (inr (inr (inr (inl refl))), inr (inr (inl refl)), inr (inl refl)),
          p,
        )
  ]
    where
      sync_case :
          (file : Str)
          → info_file sys c args ≡ file
          → sync_calls sys
              (options args)
              (capped args.max_threads max_num_threads)
              (str "unix://" ++ socket sys c args)
              (service c)
              (announced sys c)
              file
            ≡ before ++ open_file path ∷ rest
          → Listens c args before × (path ≡ info_file sys c args)
      sync_case [] q p = absurd (no_open _ before rest path (tt, (tt, (tt, (tt, (tt, tt))))) p)
      sync_case (x ∷ file) q p =
          let (b, r) =
            opened
              (create_server (some (capped args.max_threads max_num_threads)) (options args)
                ∷ add_servicer (service c)
                ∷ add_insecure_port (str "unix://" ++ socket sys c args)
                ∷ start_server
                ∷ [])
              _ before rest path (x ∷ file) (tt, (tt, (tt, (tt, tt)))) (tt, (tt, (tt, tt))) p in
          (
            subst (Listens c args) (sym b)
                (inr (inr (inr (inl refl))), inr (inl refl), inr (inr (inl refl))),
            r ∙ sym q,
          )

  -- A server whose handler is refused is not started.
  start_if_built_cases :
      {V : Type 0} (start : Server → Io) (server : Server) (r : Str ⊎ Handler V)
      → ((h : Handler V) × (r ≡ inr h)) ⊎ (start_if_built start (with_server server r) ≡ pass)
  start_if_built_cases start server (inl error) = inr refl
  start_if_built_cases start server (inr h) = inl (h, refl)

  Accepted-or_pass :
      {V : Type 0} (c : ServerClass) (user : User V) (args : Arguments)
      → Accepted c user ⊎ (serve sys c user args ≡ pass)
  unfolding serve Accumulator.Server.init Reduce.Server.init ReduceStream.Server.init
  Accepted-or_pass accumulator_async user args =
      start_if_built_cases (Accumulator.Server.aexec sys) (common_init args)
        (Accumulator.Handler.get_handler user.given user.init_args (or_empty user.init_kwargs))
  Accepted-or_pass reduce_async user args =
      start_if_built_cases (Reduce.Server.aexec sys) (common_init args)
        (Reduce.Handler.get_handler user.given user.init_args (or_empty user.init_kwargs))
  Accepted-or_pass reduce_stream_async user args =
      start_if_built_cases (ReduceStream.Server.aexec sys) (common_init args)
        (ReduceStream.Handler.get_handler user.given user.init_args (or_empty user.init_kwargs))
  Accepted-or_pass batch_map_async user args = inl tt
  Accepted-or_pass map_async user args = inl tt
  Accepted-or_pass map_sync user args = inl tt
  Accepted-or_pass map_stream_async user args = inl tt
  Accepted-or_pass side_input_sync user args = inl tt
  Accepted-or_pass sink_async user args = inl tt
  Accepted-or_pass sink_sync user args = inl tt
  Accepted-or_pass source_async user args = inl tt
  Accepted-or_pass source_transform_async user args = inl tt
  Accepted-or_pass source_transform_sync user args = inl tt

  -- Each server but the multiprocess ones, whatever its arguments and whichever calls raise: if it opens a
  -- file, then before that it has bound the address it was given (a sink in the fallback container: that container's), added its
  -- servicer and started, none of which has raised; and the file is the one that it was given (or that
  -- container's). So nobody reads of such a server that does not listen.
  pub serve_announces :
      {V : Type 0} (c : ServerClass) (user : User V) (args : Arguments) (before rest : List Call)
      (path : Str)
      → (serve sys c user args).calls ≡ before ++ open_file path ∷ rest
      → All (Returns sys) before × Listens c args before × (path ≡ info_file sys c args)
  serve_announces c user args before rest path e = elim (Accepted-or_pass c user args) [
    | inl a ↦
        let (h, more, q) =
          performed-before sys (calls_of sys c args) before rest (open_file path)
            (sym (ap (λ io. io.calls) (serve-Performs sys c user args a).eq) ∙ e) in
        let (l, f) = calls_of-Listens c args before more path q in (h, l, f)
    | inr p ↦ absurd (no_open [] before rest path tt (sym (ap (λ io. io.calls) p) ∙ e))
  ]
