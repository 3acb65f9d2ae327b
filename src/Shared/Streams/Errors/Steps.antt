-- ===== src/Shared/Streams/Errors/Steps.antt =====
-- Every step of the scheduler keeps what holds whatever the requests and the handlers.
use mathlib.Core.List.{append_assoc}
use numaflow_python.Base.{
  ◌≡◌, ◌⊎◌, inl, inr, refl, sym, ap, ◌∙◌, subst, false, none, some, List, [], ◌∷◌, ◌++◌, map, All,
  Some-append_right,
}
use numaflow_python.Shared.Queue.{Queue, Read, item, stream_eof, put}
use numaflow_python.Shared.Server.{Result, ok, raised}
use numaflow_python.Shared.Streams.{
  report, abort, Manager, Reacts, ManagerLaws, Produced, running, over, broken, fresh, aborted,
  is_drained, Tagged, open_input, input_of, State, start, input, Step, read, wait, resume, complain,
  give_up, drain, emit, leave, break, close, Run, stop, step,
}
use numaflow_python.Shared.Streams.Causality.{IsCausal}
use numaflow_python.Shared.Streams.Errors.{IsEnd, Shows-append, Begins, Origin, HasOrigin, Sound}
use numaflow_python.Shared.Streams.Errors.Tasks.{
  Begins-ended, Begins-resume, Begins-set, broken_set,
}
use numaflow_python.Shared.Streams.Errors.Turns.{
  reading-Begins, input-Begins, next_split, is_request, go_case, await_case, raised_put,
  still_raised, append-Origins, lane_Sound, error_Sound, trailer_Origins,
}

module _ (manager : Manager) (laws : ManagerLaws manager) {Out : Type 0}
    (work : manager.Info → Read (manager.D) → Produced Out) (trailer : manager.TM → List Out)
    (causal : IsCausal work) (reqs : List (manager.Req)) where
  open manager use {Req, Info, D, TM, init, on_request, task, command, IsValid}

  abbrev Valid : State manager Out → Type 0
  Valid s = Sound manager work trailer reqs s

  abbrev Origins : Queue (Result (Tagged Out)) → Type 0
  Origins q = All (HasOrigin manager work trailer reqs) q

  pub Sound-start : Valid (start manager work trailer reqs)
  Sound-start = record {
    past = [];
    split = refl;
    valid = laws.init_valid;
    begins = λ k. subst (λ o. Begins work (open_input false o) fresh) (sym (laws.init_task k)) refl;
    broken_raises = λ k p. cc;
    shows = tt;
    origins = tt;
  }

  module _ (s : State manager Out) (v : Valid s) where
    pub Step-Sound : (t : State manager Out) → Step manager work trailer s t → Valid t
    unfolding put
    Step-Sound t (read r rs tm p w e g q) =
        let (iv, b) =
          go_case manager laws work trailer causal reqs s v (command r) tm
            (subst (Reacts manager s.tm (command r)) g (laws.reacts s.tm r v.valid)) p w in
        subst Valid (sym q) (record {
          past = v.past ++ r ∷ [];
          split = next_split manager laws work trailer causal reqs s v r rs e;
          valid = iv;
          begins = input-Begins manager laws work trailer causal reqs s v tm p w b;
          broken_raises = v.broken_raises;
          shows = v.shows;
          origins = v.origins;
        })
    Step-Sound t (wait r rs k x tm p w e g q) =
        let (iv, b) =
          await_case manager laws work trailer causal reqs s v (command r) k x tm
            (subst (Reacts manager s.tm (command r)) g (laws.reacts s.tm r v.valid)) p w in
        subst Valid (sym q) (record {
          past = v.past ++ r ∷ [];
          split = next_split manager laws work trailer causal reqs s v r rs e;
          valid = iv;
          begins = λ j. rw p (b j);
          broken_raises = v.broken_raises;
          shows = v.shows;
          origins = v.origins;
        })
    Step-Sound t (resume k x w o q) = subst Valid (sym q) (record {
      past = v.past;
      split = v.split;
      valid = v.valid;
      begins = λ j. Begins-resume work k j x (is_drained s.phase) (task s.tm j) (s.lanes j) (
          subst (λ w. Begins work (input_of j w (is_drained s.phase) (task s.tm j)) (s.lanes j)) w
            (v.begins j));
      broken_raises = λ j p. elim (broken_set k j (s.lanes j) fresh p) [
        | inl b ↦ cc
        | inr b ↦ v.broken_raises j b
      ];
      shows = v.shows;
      origins = v.origins;
    })
    Step-Sound t (complain r rs e p w h g q) =
        let o : Origin manager work trailer reqs e = inr (
          is_request manager laws work trailer causal reqs s v
            (λ r.
              (tm : TM) × IsValid tm × ((on_request tm r ≡ report e) ⊎ (on_request tm r ≡ abort e)))
            r rs h (s.tm, v.valid, inl g)) in
        subst Valid (sym q) (
          error_Sound manager laws work trailer causal reqs s v r rs e s.phase p w h o
            (ap is_drained p) (Shows-append s.phase s.queue (item (raised e) ∷ []) v.shows))
    Step-Sound t (give_up r rs e p w h g q) =
        let o : Origin manager work trailer reqs e = inr (
          is_request manager laws work trailer causal reqs s v
            (λ r.
              (tm : TM) × IsValid tm × ((on_request tm r ≡ report e) ⊎ (on_request tm r ≡ abort e)))
            r rs h (s.tm, v.valid, inr g)) in
        subst Valid (sym q) (
          error_Sound manager laws work trailer causal reqs s v r rs e aborted p w h o refl
            (raised_put manager laws work trailer causal reqs s v e))
    Step-Sound t (drain p w e q) = subst Valid (sym q) (record {
      past = v.past;
      split = v.split;
      valid = v.valid;
      begins = λ k. rw w (
          Begins-ended work causal (task s.tm k) (s.lanes k)
            (reading-Begins manager laws work trailer causal reqs s v p w k));
      broken_raises = v.broken_raises;
      shows = tt;
      origins = v.origins;
    })
    Step-Sound t (emit k i r x rest h p e q) = subst Valid (sym q) (
        lane_Sound manager laws work trailer causal reqs s v k
          (record { sent = (s.lanes k).sent ++ x ∷ []; phase = running })
          (item (ok (some k, x)) ∷ [])
          (subst
            (λ y. Begins work y (record { sent = (s.lanes k).sent ++ x ∷ []; phase = running }))
            (sym h) (λ _. (rest, e ∙ sym (append_assoc (s.lanes k).sent (x ∷ []) rest))))
          (λ b. cc) (tt, tt))
    Step-Sound t (leave k i r h p e f q) = subst Valid (sym q) (record {
      past = v.past;
      split = v.split;
      valid = v.valid;
      begins = λ j.
          Begins-set work k j (input manager work trailer s k) (input manager work trailer s j)
            (s.lanes j) (record { sent = (s.lanes k).sent; phase = over })
            (ap (input manager work trailer s))
            (subst (λ y. Begins work y (record { sent = (s.lanes k).sent; phase = over })) (sym h)
              (λ b. cc))
            (v.begins j);
      broken_raises = λ j b.
          elim (broken_set k j (s.lanes j) (record { sent = (s.lanes k).sent; phase = over }) b) [
            | inl c ↦ cc
            | inr c ↦ v.broken_raises j c
          ];
      shows = v.shows;
      origins = v.origins;
    })
    Step-Sound t (break k i r x h p f q) = subst Valid (sym q) (
        lane_Sound manager laws work trailer causal reqs s v k
          (record { sent = (s.lanes k).sent; phase = broken }) (item (raised x) ∷ [])
          (subst (λ y. Begins work y (record { sent = (s.lanes k).sent; phase = broken })) (sym h)
            (λ b. cc))
          (λ b. raised_put manager laws work trailer causal reqs s v x) (inl (i, r, f), tt))
    Step-Sound t (close p o q) = subst Valid (sym q) (record {
      past = v.past;
      split = v.split;
      valid = v.valid;
      begins = λ k.
          subst (λ d. Begins work (input_of k s.waiting (is_drained d) (task s.tm k)) (s.lanes k)) p
            (v.begins k);
      broken_raises = still_raised manager laws work trailer causal reqs s v _;
      shows = Some-append_right IsEnd s.queue _ (
          Some-append_right IsEnd (map (λ o. item (ok (none, o))) (trailer s.tm)) (stream_eof ∷ [])
            (inl tt));
      origins =
          append-Origins manager laws work trailer causal reqs s v _
            (trailer_Origins manager laws work trailer causal reqs s v (trailer s.tm));
    })

  pub Run-Sound : {s t : State manager Out} → Run manager work trailer s t → Valid s → Valid t
  Run-Sound stop v = v
  Run-Sound (step {s = s} {t = t} st run) v = Run-Sound run (Step-Sound s v t st)
