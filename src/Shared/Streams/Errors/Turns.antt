-- ===== src/Shared/Streams/Errors/Turns.antt =====
-- What a step of the scheduler does to what holds whatever the requests and the handlers.
use mathlib.Core.List.{append_assoc}
use numaflow_python.Base.{
  ◌≡◌, inl, inr, sym, ap, ◌∙◌, subst, false, none, some, List, [], ◌∷◌, ◌++◌, map, All, All-append,
  Some, Some-append_left, Some-append_right,
}
use numaflow_python.Base.Text.{Str}
use numaflow_python.Shared.Queue.{Queue, Read, item, stream_eof, put}
use numaflow_python.Shared.Server.{Exception, Result, ok, raised}
use numaflow_python.Shared.Streams.{
  Command, feed, finish, skip, reject, Session, go, await_task, Manager, Reacts, ManagerLaws,
  Produced, broken, Lane, set_lane, Phase, reading, is_drained, Tagged, open_input, input_of, State,
  input,
}
use numaflow_python.Shared.Streams.Causality.{IsCausal}
use numaflow_python.Shared.Streams.Errors.{
  IsRaised, HasRaised, Shows, Shows-append, Begins, Origin, HasOrigin, Sound,
}
use numaflow_python.Shared.Streams.Errors.Tasks.{Begins-feed, Begins-finish, Begins-set, broken_set}

module _ (manager : Manager) (laws : ManagerLaws manager) {Out : Type 0}
    (work : manager.Info → Read (manager.D) → Produced Out) (trailer : manager.TM → List Out)
    (causal : IsCausal work) (reqs : List (manager.Req)) where
  open manager use {Req, Info, D, TM, init, on_request, task, command, IsValid}

  abbrev Valid : State manager Out → Type 0
  Valid s = Sound manager work trailer reqs s

  abbrev Origins : Queue (Result (Tagged Out)) → Type 0
  Origins q = All (HasOrigin manager work trailer reqs) q

  module _ (s : State manager Out) (v : Valid s) where
    pub reading-Begins :
        s.phase ≡ reading
        → s.waiting ≡ none
        → (k : Str) → Begins work (open_input false (task s.tm k)) (s.lanes k)
    reading-Begins p w k =
        subst (λ w. Begins work (input_of k w false (task s.tm k)) (s.lanes k)) w
          (subst (λ p. Begins work (input_of k s.waiting (is_drained p) (task s.tm k)) (s.lanes k))
            p (v.begins k))

    -- The same input, in the state that the producer is in.
    pub input-Begins :
        (tm : TM)
        → s.phase ≡ reading
        → s.waiting ≡ none
        → ((k : Str) → Begins work (open_input false (task tm k)) (s.lanes k))
        → (k : Str)
        → Begins work (input_of k s.waiting (is_drained s.phase) (task tm k)) (s.lanes k)
    input-Begins tm p w b k = rw (w, p) (b k)

    pub next_split :
        (r : Req) (rs : List Req) → s.requests ≡ r ∷ rs → reqs ≡ (v.past ++ r ∷ []) ++ rs
    next_split r rs e = v.split ∙ ap (λ l. v.past ++ l) e ∙ sym (append_assoc v.past (r ∷ []) rs)

    pub is_request :
        (P : Req → Type 0) (r : Req) (rs : List Req) → s.requests ≡ r ∷ rs → P r → Some P reqs
    is_request P r rs e h =
        subst (Some P) (sym (v.split ∙ ap (λ l. v.past ++ l) e))
          (Some-append_right P v.past (r ∷ rs) (inl h))

    pub go_case :
        (c : Command Info D) (tm : TM)
        → Reacts manager s.tm c (go tm)
        → s.phase ≡ reading
        → s.waiting ≡ none
        → IsValid tm × ((k : Str) → Begins work (open_input false (task tm k)) (s.lanes k))
    go_case (feed j i d) tm h p w = (
      h.0,
      λ k.
          Begins-feed work causal j k i d (task s.tm k) (task tm k) (task s.tm j) (s.lanes k)
            (ap (task s.tm)) (h.1 k) (reading-Begins p w k),
    )
    go_case (finish j) tm h p w = absurd h
    go_case skip tm h p w = (
      subst IsValid (sym h) v.valid,
      λ k.
          subst (λ m. Begins work (open_input false (task m k)) (s.lanes k)) (sym h)
            (reading-Begins p w k),
    )
    go_case (reject e) tm h p w = absurd h

    pub await_case :
        (c : Command Info D) (j : Str) (x : Session Info D) (tm : TM)
        → Reacts manager s.tm c (await_task j x tm)
        → s.phase ≡ reading
        → s.waiting ≡ none
        → IsValid tm
          × ((k : Str) → Begins work (input_of k (some (j, x)) false (task tm k)) (s.lanes k))
    await_case (feed j' i d) j x tm h p w = absurd h
    await_case (finish j') j x tm h p w = (
      h.2,
      λ k.
          subst (λ n. Begins work (input_of k (some (n, x)) false (task tm k)) (s.lanes k))
            (sym (h.0))
            (Begins-finish work causal j' k x (task s.tm k) (task tm k) (task s.tm j') (s.lanes k)
              (ap (task s.tm)) h.1 (h.3 k) (reading-Begins p w k)),
    )
    await_case skip j x tm h p w = absurd h
    await_case (reject e) j x tm h p w = absurd h

    -- An error that is put.
    pub raised_put : (e : Exception) → HasRaised (put s.queue (item (raised e)))
    unfolding put
    raised_put e = Some-append_right IsRaised s.queue (item (raised e) ∷ []) (inl tt)

    pub still_raised :
        (more : Queue (Result (Tagged Out)))
        → ((k : Str) → (s.lanes k).phase ≡ broken → HasRaised (s.queue ++ more))
    still_raised more k p = Some-append_left IsRaised s.queue more (v.broken_raises k p)

    pub append-Origins :
        (more : Queue (Result (Tagged Out))) → Origins more → Origins (s.queue ++ more)
    append-Origins more h =
        All-append (HasOrigin manager work trailer reqs) s.queue more v.origins h

    -- The lane of `j` changes, and `more` is put.
    pub lane_Sound :
        (j : Str) (new : Lane Out) (more : Queue (Result (Tagged Out)))
        → Begins work (input manager work trailer s j) new
        → (new.phase ≡ broken → HasRaised (s.queue ++ more))
        → Origins more
        → Valid (record s { lanes = set_lane s.lanes j new; queue = s.queue ++ more })
    lane_Sound j new more b raises o = record {
      past = v.past;
      split = v.split;
      valid = v.valid;
      begins = λ k.
          Begins-set work j k (input manager work trailer s j) (input manager work trailer s k)
            (s.lanes k) new (ap (input manager work trailer s)) b (v.begins k);
      broken_raises = λ k p. elim (broken_set j k (s.lanes k) new p) [
        | inl q ↦ raises q
        | inr q ↦ still_raised more k q
      ];
      shows = Shows-append s.phase s.queue more v.shows;
      origins = append-Origins more o;
    }

    -- The requests are read on, and an error is put.
    pub error_Sound :
        (r : Req) (rs : List Req) (e : Exception) (ph : Phase)
        → s.phase ≡ reading
        → s.waiting ≡ none
        → s.requests ≡ r ∷ rs
        → Origin manager work trailer reqs e
        → is_drained ph ≡ false
        → Shows ph (put s.queue (item (raised e)))
        → Valid (record s { requests = rs; queue = put s.queue (item (raised e)); phase = ph })
    unfolding put
    error_Sound r rs e ph p w q o d sh = record {
      past = v.past ++ r ∷ [];
      split = next_split r rs q;
      valid = v.valid;
      begins = λ k. rw (w, d) (reading-Begins p w k);
      broken_raises = still_raised (item (raised e) ∷ []);
      shows = sh;
      origins = append-Origins (item (raised e) ∷ []) (o, tt);
    }

    pub trailer_Origins :
        (os : List Out) → Origins (map (λ o. item (ok (none, o))) os ++ stream_eof ∷ [])
    trailer_Origins [] = (tt, tt)
    trailer_Origins (o ∷ os) = (tt, trailer_Origins os)
