-- ===== src/Shared/Streams/Errors/Clean.antt =====
-- No refused request is overlooked: what has been read without an error is acceptable.
use mathlib.Core.List.{append_assoc, append-nil}
use numaflow_python.Base.{
  ◌≡◌, ◌≢◌, ◌⊎◌, inl, inr, refl, sym, ap, ◌∙◌, subst, none, List, [], ◌∷◌, ◌++◌, map, Some,
  if◌then◌else◌, Bool-cases,
}
use numaflow_python.Base.Text.{Str, str_eq, str_eq_iff}
use numaflow_python.Shared.Queue.{Queue, Read, Item, item, stream_eof}
use numaflow_python.Shared.Server.{Exception, Result, ok}
use numaflow_python.Shared.Streams.{
  Command, feed, finish, skip, reject, Session, go, await_task, report, abort, Manager, Reacts,
  ManagerLaws, Produced, draining, closed, Tagged, State, start,
}
use numaflow_python.Shared.Streams.Reference.{idle, history, history-append, Acceptable, IsClean}
use numaflow_python.Shared.Streams.Errors.{IsEnd, HasRaised}

pub IsClean-append :
    {Info D : Type 0} (past cs : List (Command Info D)) (c : Command Info D)
    → IsClean past cs
    → Acceptable (past ++ cs) c
    → IsClean past (cs ++ c ∷ [])
IsClean-append past [] c h a = (subst (λ l. Acceptable l c) (append-nil past) a, tt)
IsClean-append past (b ∷ cs) c h a = (
  h.0,
  IsClean-append (past ++ b ∷ []) cs c h.1
      (subst (λ l. Acceptable l c) (sym (append_assoc past (b ∷ []) cs)) a),
)

module _ {Out : Type 0} where
  pub no-IsEnd-append :
      (q more : Queue (Result (Tagged Out)))
      → ¬ Some IsEnd q
      → ¬ Some IsEnd more
      → ¬ Some IsEnd (q ++ more)
  no-IsEnd-append [] more h g s = g s
  no-IsEnd-append (x ∷ q) more h g (inl p) = h (inl p)
  no-IsEnd-append (x ∷ q) more h g (inr s) = no-IsEnd-append q more (λ t. h (inr t)) g s

  abbrev pub trailing : Out → Item (Result (Tagged Out))
  trailing o = item (ok (none, o))

  pub trailer_no-IsEnd : (os : List Out) → ¬ Some IsEnd (map trailing os)
  trailer_no-IsEnd [] s = s
  trailer_no-IsEnd (o ∷ os) (inl p) = p
  trailer_no-IsEnd (o ∷ os) (inr s) = trailer_no-IsEnd os s

module _ (manager : Manager) (laws : ManagerLaws manager) {Out : Type 0}
    (work : manager.Info → Read (manager.D) → Produced Out) (trailer : manager.TM → List Out)
    (reqs : List (manager.Req)) where
  open manager use {Req, Info, D, TM, init, on_request, task, command, IsValid}

  -- The queue up to its end has an error, or all requests were acceptable.
  pub record Decided (q : Queue (Result (Tagged Out))) : Type 0 where
    pub before : Queue (Result (Tagged Out))
    pub rest : Queue (Result (Tagged Out))
    pub is : q ≡ before ++ stream_eof ∷ rest
    pub open_before : ¬ Some IsEnd before
    pub verdict : HasRaised before ⊎ IsClean [] (map command reqs)

  pub record Clear (s : State manager Out) : Type 0 where
    pub past : List (Command Info D)
    pub split : map command reqs ≡ past ++ map command s.requests
    pub valid : IsValid s.tm
    pub tracks : (k : Str) → (history k idle past).current ≡ task s.tm k
    pub clean : HasRaised s.queue ⊎ IsClean [] past
    pub drained : s.phase ≡ draining → s.requests ≡ []
    pub open_queue : s.phase ≢ closed → ¬ Some IsEnd s.queue
    pub decided : s.phase ≡ closed → Decided s.queue

  pub Clear-start : Clear (start manager work trailer reqs)
  Clear-start = record {
    past = [];
    split = refl;
    valid = laws.init_valid;
    tracks = λ k. sym (laws.init_task k);
    clean = inr tt;
    drained = λ p. cc;
    open_queue = λ p s. s;
    decided = λ p. cc;
  }

  -- What a reaction makes of the task manager that has read `past`.
  abbrev pub Tracked : List (Command Info D) → TM → Type 0
  Tracked past tm = (k : Str) → (history k idle past).current ≡ task tm k

  -- A command that is met without an error is acceptable.
  abbrev pub Taken : List (Command Info D) → Command Info D → TM → Type 0
  Taken past c tm = IsValid tm × Tracked (past ++ c ∷ []) tm × Acceptable past c

  pub go_Taken :
      (past : List (Command Info D)) (tm tm' : TM) (c : Command Info D)
      → IsValid tm
      → Tracked past tm
      → Reacts manager tm c (go tm')
      → Taken past c tm'
  go_Taken past tm tm' (feed j i d) v t h = (
    h.0,
    λ k.
        ap (λ h. h.current) (history-append k idle past (feed j i d))
        ∙ (elim (Bool-cases (str_eq j k)) [
          | inl q ↦ rw (h.1 k, q, t k, ap (task tm) ((str_eq_iff j k).0 q)) refl
          | inr q ↦ rw (h.1 k, q, t k) refl
        ]),
    tt,
  )
  go_Taken past tm tm' (finish j) v t h = absurd h
  go_Taken past tm tm' skip v t h = (
    subst IsValid (sym h) v,
    λ k. ap (λ h. h.current) (history-append k idle past skip) ∙ t k ∙ ap (λ m. task m k) (sym h),
    tt,
  )
  go_Taken past tm tm' (reject e) v t h = absurd h

  -- The end of the task `j`, or of no task.
  tracks_finish :
      (past : List (Command Info D)) (tm tm' : TM) (j : Str)
      → Tracked past tm
      → ((k : Str) → task tm' k ≡ (if str_eq j k then none else task tm k))
      → Tracked (past ++ finish j ∷ []) tm'
  tracks_finish past tm tm' j t h k =
      ap (λ h. h.current) (history-append k idle past (finish j))
      ∙ (elim (Bool-cases (str_eq j k)) [
        | inl q ↦ rw (h k, q) refl
        | inr q ↦ rw (h k, q, t k) refl
      ])

  pub await_Taken :
      (past : List (Command Info D)) (tm tm' : TM) (c : Command Info D) (j : Str)
      (x : Session Info D)
      → Tracked past tm
      → Reacts manager tm c (await_task j x tm')
      → Taken past c tm'
  await_Taken past tm tm' (feed j' i d) j x t h = absurd h
  await_Taken past tm tm' (finish j') j x t h =
      (h.2, tracks_finish past tm tm' j' t h.3, λ n. let z = sym n ∙ t j' ∙ h.1 in cc)
  await_Taken past tm tm' skip j x t h = absurd h
  await_Taken past tm tm' (reject e) j x t h = absurd h

  pub error_tracks :
      (past : List (Command Info D)) (tm : TM) (c : Command Info D) (e : Exception)
      → Tracked past tm
      → Reacts manager tm c (report e) ⊎ Reacts manager tm c (abort e)
      → Tracked (past ++ c ∷ []) tm
  error_tracks past tm (feed j i d) e t (inl h) = absurd h
  error_tracks past tm (feed j i d) e t (inr h) = absurd h
  error_tracks past tm (finish j) e t (inl h) = tracks_finish past tm tm j t (λ k.
      elim (Bool-cases (str_eq j k)) [
        | inl q ↦ rw q (sym (ap (task tm) ((str_eq_iff j k).0 q)) ∙ h)
        | inr q ↦ rw q refl
      ])
  error_tracks past tm (finish j) e t (inr h) = absurd h
  error_tracks past tm skip e t (inl h) = absurd h
  error_tracks past tm skip e t (inr h) = absurd h
  error_tracks past tm (reject x) e t (inl h) = absurd h
  error_tracks past tm (reject x) e t (inr h) =
      λ k. ap (λ h. h.current) (history-append k idle past (reject x)) ∙ t k
