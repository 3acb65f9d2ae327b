-- ===== src/Shared/Streams/Errors/Clearing.antt =====
-- An rpc that returns has met no refused request.
use mathlib.Core.List.{append_assoc, append-nil}
use numaflow_python.Base.{
  ◌≡◌, ◌≢◌, ◌⊎◌, inl, inr, refl, sym, ap, ◌∙◌, subst, some, List, [], ◌∷◌, ◌++◌, map,
  Some-append_left, Some-append_right,
}
use numaflow_python.Shared.Queue.{Queue, Read, item, stream_eof, put}
use numaflow_python.Shared.Server.{Exception, Result, ok, raised}
use numaflow_python.Shared.Streams.{
  report, abort, Manager, Reacts, ManagerLaws, Produced, Phase, reading, draining, closed, aborted,
  Tagged, State, Step, read, wait, resume, complain, give_up, drain, emit, leave, break, close, Run,
  stop, step,
}
use numaflow_python.Shared.Streams.Reference.{IsClean}
use numaflow_python.Shared.Streams.Errors.{IsRaised, HasRaised}
use numaflow_python.Shared.Streams.Errors.Clean.{
  IsClean-append, no-IsEnd-append, trailing, trailer_no-IsEnd, Decided, Clear, Taken, go_Taken,
  await_Taken, error_tracks,
}

module _ (manager : Manager) (laws : ManagerLaws manager) {Out : Type 0}
    (work : manager.Info → Read (manager.D) → Produced Out) (trailer : manager.TM → List Out)
    (reqs : List (manager.Req)) where
  open manager use {Req, Info, D, TM, on_request, task, command, IsValid}

  abbrev IsClear : State manager Out → Type 0
  IsClear s = Clear manager laws work trailer reqs s

  module _ (s : State manager Out) (v : IsClear s) where
    next_split :
        (r : Req) (rs : List Req)
        → s.requests ≡ r ∷ rs
        → map command reqs ≡ (v.past ++ command r ∷ []) ++ map command rs
    next_split r rs e =
        v.split
        ∙ ap (λ l. v.past ++ map command l) e
        ∙ sym (append_assoc v.past (command r ∷ []) (map command rs))

    next-IsClean :
        (r : Req) (tm : TM)
        → Taken manager laws work trailer reqs v.past (command r) tm
        → HasRaised s.queue ⊎ IsClean [] (v.past ++ command r ∷ [])
    next-IsClean r tm h = elim v.clean [
      | inl q ↦ inl q
      | inr c ↦ inr (IsClean-append [] v.past (command r) c h.2)
    ]

    -- A turn that the task manager takes.
    taken :
        (r : Req) (rs : List Req) (tm : TM) (w : _)
        → s.phase ≡ reading
        → s.requests ≡ r ∷ rs
        → Taken manager laws work trailer reqs v.past (command r) tm
        → IsClear (record s { requests = rs; tm = tm; waiting = w })
    taken r rs tm w p e h = record {
      past = v.past ++ command r ∷ [];
      split = next_split r rs e;
      valid = h.0;
      tracks = h.1;
      clean = next-IsClean r tm h;
      drained = λ q. let z = sym p ∙ q in cc;
      open_queue = v.open_queue;
      decided = v.decided;
    }

    -- A turn that is an error.
    refused :
        (r : Req) (rs : List Req) (e : Exception) (ph : Phase)
        → s.phase ≡ reading
        → ph ≢ draining
        → ph ≢ closed
        → s.requests ≡ r ∷ rs
        → Reacts manager s.tm (command r) (report e) ⊎ Reacts manager s.tm (command r) (abort e)
        → IsClear (record s { requests = rs; queue = s.queue ++ item (raised e) ∷ []; phase = ph })
    refused r rs e ph p d c q h = record {
      past = v.past ++ command r ∷ [];
      split = next_split r rs q;
      valid = v.valid;
      tracks = error_tracks manager laws work trailer reqs v.past s.tm (command r) e v.tracks h;
      clean = inl (Some-append_right IsRaised s.queue (item (raised e) ∷ []) (inl tt));
      drained = λ x. absurd (d x);
      open_queue = λ n.
          no-IsEnd-append s.queue (item (raised e) ∷ [])
            (v.open_queue (λ x. let z = sym p ∙ x in cc)) (λ y. elim y [ inl a ↦ a | inr b ↦ b ]);
      decided = λ x. absurd (c x);
    }

    -- More is put into the queue.
    more_Decided :
        (more : Queue (Result (Tagged Out)))
        → Decided manager laws work trailer reqs s.queue
        → Decided manager laws work trailer reqs (s.queue ++ more)
    more_Decided more d = record {
      before = d.before;
      rest = d.rest ++ more;
      is = ap (λ l. l ++ more) d.is ∙ append_assoc d.before (stream_eof ∷ d.rest) more;
      open_before = d.open_before;
      verdict = d.verdict;
    }

    putting :
        (lanes : _) (x : Result (Tagged Out))
        → IsClear (record s { lanes = lanes; queue = s.queue ++ item x ∷ [] })
    putting lanes x = record {
      past = v.past;
      split = v.split;
      valid = v.valid;
      tracks = v.tracks;
      clean = elim v.clean [
        | inl q ↦ inl (Some-append_left IsRaised s.queue (item x ∷ []) q)
        | inr c ↦ inr c
      ];
      drained = v.drained;
      open_queue = λ n.
          no-IsEnd-append s.queue (item x ∷ []) (v.open_queue n)
            (λ y. elim y [ inl a ↦ a | inr b ↦ b ]);
      decided = λ c. more_Decided (item x ∷ []) (v.decided c);
    }

    closing :
        s.phase ≡ draining
        → Decided manager laws work trailer reqs
            (s.queue ++ (map trailing (trailer s.tm) ++ stream_eof ∷ []))
    closing p = record {
      before = s.queue ++ map trailing (trailer s.tm);
      rest = [];
      is = sym (append_assoc s.queue (map trailing (trailer s.tm)) (stream_eof ∷ []));
      open_before =
          no-IsEnd-append s.queue (map trailing (trailer s.tm))
            (v.open_queue (λ x. let z = sym p ∙ x in cc)) (trailer_no-IsEnd (trailer s.tm));
      verdict = elim v.clean [
        | inl q ↦ inl (Some-append_left IsRaised s.queue (map trailing (trailer s.tm)) q)
        | inr c ↦ inr (
            subst (IsClean [])
              (sym (v.split ∙ ap (λ l. v.past ++ map command l) (v.drained p) ∙ append-nil v.past))
              c)
      ];
    }

    Step-Clear : (t : State manager Out) → Step manager work trailer s t → IsClear t
    unfolding put
    Step-Clear t (read r rs tm p w e g q) = subst IsClear (sym q) (
        taken r rs tm s.waiting p e (
          go_Taken manager laws work trailer reqs v.past s.tm tm (command r) v.valid v.tracks
            (subst (Reacts manager s.tm (command r)) g (laws.reacts s.tm r v.valid))))
    Step-Clear t (wait r rs k x tm p w e g q) = subst IsClear (sym q) (
        taken r rs tm (some (k, x)) p e (
          await_Taken manager laws work trailer reqs v.past s.tm tm (command r) k x v.tracks
            (subst (Reacts manager s.tm (command r)) g (laws.reacts s.tm r v.valid))))
    Step-Clear t (resume k x w o q) = subst IsClear (sym q) (record {
      past = v.past;
      split = v.split;
      valid = v.valid;
      tracks = v.tracks;
      clean = v.clean;
      drained = v.drained;
      open_queue = v.open_queue;
      decided = v.decided;
    })
    Step-Clear t (complain r rs e p w h g q) = subst IsClear (sym q) (
        refused r rs e s.phase p (λ x. let z = sym p ∙ x in cc) (λ x. let z = sym p ∙ x in cc) h
          (inl (subst (Reacts manager s.tm (command r)) g (laws.reacts s.tm r v.valid))))
    Step-Clear t (give_up r rs e p w h g q) = subst IsClear (sym q) (
        refused r rs e aborted p (λ x. cc) (λ x. cc) h
          (inr (subst (Reacts manager s.tm (command r)) g (laws.reacts s.tm r v.valid))))
    Step-Clear t (drain p w e q) = subst IsClear (sym q) (record {
      past = v.past;
      split = v.split;
      valid = v.valid;
      tracks = v.tracks;
      clean = v.clean;
      drained = λ x. e;
      open_queue = λ n. v.open_queue (λ x. let z = sym p ∙ x in cc);
      decided = λ x. cc;
    })
    Step-Clear t (emit k i r x rest h p e q) = subst IsClear (sym q) (putting _ (ok (some k, x)))
    Step-Clear t (leave k i r h p e f q) = subst IsClear (sym q) (record {
      past = v.past;
      split = v.split;
      valid = v.valid;
      tracks = v.tracks;
      clean = v.clean;
      drained = v.drained;
      open_queue = v.open_queue;
      decided = v.decided;
    })
    Step-Clear t (break k i r x h p f q) = subst IsClear (sym q) (putting _ (raised x))
    Step-Clear t (close p o q) = subst IsClear (sym q) (record {
      past = v.past;
      split = v.split;
      valid = v.valid;
      tracks = v.tracks;
      clean = elim v.clean [ inl h ↦ inl (Some-append_left IsRaised s.queue _ h) | inr c ↦ inr c ];
      drained = λ x. cc;
      open_queue = λ n. absurd (n refl);
      decided = λ x. closing p;
    })

  pub Run-Clear : {s t : State manager Out} → Run manager work trailer s t → IsClear s → IsClear t
  Run-Clear stop v = v
  Run-Clear (step {s = s} {t = t} st run) v = Run-Clear run (Step-Clear s v t st)
