-- ===== src/Servers/Starting/Sequence.antt =====
-- A sequence of calls that ends at the first one that raises.
use numaflow_python.Base.{◌≡◌, ◌≢◌, refl, sym, ap, ◌∙◌, subst, List, [], ◌∷◌, ◌++◌, All}
use numaflow_python.Base.Text.{Str}
use numaflow_python.Shared.Server.{Result, ok, raised}
use numaflow_python.Servers.Starting.{
  Call, create_server, add_insecure_port, add_servicer, start_server, open_file, write_text,
  append_cleanup, wait_for_termination, System, Io, continue, ◌>>◌, pass, call,
}

module _ (sys : System) where
  -- The call does not raise.
  abbrev pub Returns : Call → Type 0
  Returns c = sys.perform c ≡ ok tt

  -- Call after call, up to the first that raises.
  abbrev pub after : Call → Result (Unit {0}) → Io → Io
  after c (ok u) rest = record { calls = c ∷ rest.calls; result = rest.result }
  after c (raised e) rest = record { calls = c ∷ []; result = raised e }

  abbrev pub performed : List Call → Io
  performed [] = pass
  performed (c ∷ cs) = after c (sys.perform c) (performed cs)

  after-eq :
      (c : Call) (r : Result (Unit {0})) → record { calls = c ∷ []; result = r } ≡ after c r pass
  after-eq c (ok u) = refl
  after-eq c (raised e) = refl

  after-continue :
      (c : Call) (r : Result (Unit {0})) (m n : Io) → after c r m >> n ≡ after c r (m >> n)
  after-continue c (ok u) m n = by_result m.calls m.result
    where
      by_result :
          (cs : List Call) (q : Result (Unit {0}))
          → continue (c ∷ cs) q (λ _. n) ≡ after c (ok u) (continue cs q (λ _. n))
      by_result cs (ok v) = refl
      by_result cs (raised e) = refl
  after-continue c (raised e) m n = refl

  performed-append : (cs ds : List Call) → performed cs >> performed ds ≡ performed (cs ++ ds)
  performed-append [] ds = refl
  performed-append (c ∷ cs) ds =
      after-continue c (sys.perform c) (performed cs) (performed ds)
      ∙ ap (after c (sys.perform c)) (performed-append cs ds)

  -- What is run is this sequence of calls.
  pub record Performs (m : Io) (cs : List Call) : Type 0 where
    pub eq : m ≡ performed cs

  pub call-Performs : (c : Call) → Performs (call sys c) (c ∷ [])
  call-Performs c = record { eq = after-eq c (sys.perform c) }

  -- One sequence after another is their concatenation.
  pub then_Performs :
      {m n : Io} {cs ds : List Call} → Performs m cs → Performs n ds → Performs (m >> n) (cs ++ ds)
  then_Performs {n = n} {cs = cs} {ds = ds} p q = record {
    eq = ap (λ x. x >> n) p.eq ∙ ap (λ x. performed cs >> x) q.eq ∙ performed-append cs ds;
  }

  -- If no call raises, all are made.
  pub performed-Returns :
      (cs : List Call) → All Returns cs → performed cs ≡ record { calls = cs; result = ok tt }
  performed-Returns [] h = refl
  performed-Returns (c ∷ cs) h = rw (h.0, performed-Returns cs h.1)

  -- What is called after some calls, is called where the sequence has it, and those have not raised.
  pub performed-before :
      (cs before rest : List Call) (c : Call)
      → (performed cs).calls ≡ before ++ c ∷ rest
      → All Returns before × (more : List Call) × (cs ≡ before ++ c ∷ more)
  performed-before [] [] rest c e = cc
  performed-before [] (b ∷ before) rest c e = cc
  performed-before (d ∷ cs) before rest c e =
      by_result (sys.perform d) refl before e (λ bs. performed-before cs bs rest c)
    where
      by_result :
          (r : Result (Unit {0}))
          → sys.perform d ≡ r
          → (before : List Call) → (after d r (performed cs)).calls ≡ before ++ c ∷ rest
          → ((bs : List Call)
              → (performed cs).calls ≡ bs ++ c ∷ rest
              → All Returns bs × (more : List Call) × (cs ≡ bs ++ c ∷ more))
          → All Returns before × (more : List Call) × (d ∷ cs ≡ before ++ c ∷ more)
      by_result (ok u) p [] q next = (tt, cs, cc)
      by_result (ok u) p (b ∷ bs) q next =
          let (h, more, m) = next bs cc in
          let d_is_b : d ≡ b = cc in ((ap sys.perform (sym d_is_b) ∙ p, h), more, cc)
      by_result (raised x) p [] q next = (tt, cs, cc)
      by_result (raised x) p (b ∷ []) q next = cc
      by_result (raised x) p (b ∷ b' ∷ bs) q next = cc

-- A call that opens a file.
abbrev pub NotOpen : Call → Type 0
NotOpen (open_file path) = ⊥
NotOpen (create_server w o) = Unit
NotOpen (add_insecure_port a) = Unit
NotOpen (add_servicer s) = Unit
NotOpen start_server = Unit
NotOpen (write_text p t) = Unit
NotOpen (append_cleanup g) = Unit
NotOpen wait_for_termination = Unit

pub no_open :
    (cs before rest : List Call) (path : Str)
    → All NotOpen cs
    → cs ≢ before ++ open_file path ∷ rest
no_open [] [] rest path h e = cc
no_open [] (b ∷ before) rest path h e = cc
no_open (c ∷ cs) [] rest path h e = let p : c ≡ open_file path = cc in subst NotOpen p h.0
no_open (c ∷ cs) (b ∷ before) rest path h e = no_open cs before rest path h.1 cc

-- The only file that a sequence opens.
pub opened :
    (pre tail before rest : List Call) (p q : Str)
    → All NotOpen pre
    → All NotOpen tail
    → pre ++ open_file q ∷ tail ≡ before ++ open_file p ∷ rest
    → (before ≡ pre) × (p ≡ q)
opened [] tail [] rest p q h t e = (refl, cc)
opened [] tail (b ∷ before) rest p q h t e = absurd (no_open tail before rest p t cc)
opened (c ∷ pre) tail [] rest p q h t e =
    let f : c ≡ open_file p = cc in absurd (subst NotOpen f h.0)
opened (c ∷ pre) tail (b ∷ before) rest p q h t e =
    let (f, g) = opened pre tail before rest p q h.1 t cc in (cc, g)
