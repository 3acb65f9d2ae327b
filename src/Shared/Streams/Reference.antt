-- ===== src/Shared/Streams/Reference.antt =====
-- The reference for one name: its tasks one after another, and what each of them is given.
use numaflow_python.Base.{◌≡◌, ◌≢◌, refl, Option, none, some, List, [], ◌∷◌, ◌++◌, if◌then◌else◌}
use numaflow_python.Base.Text.{Str, str_eq}
use numaflow_python.Shared.Streams.{Command, feed, finish, skip, reject, Session, added}

-- The tasks that are ended, in order, and the one that is open.
pub record History (Info D : Type 0) : Type 0 where
  pub ended : List (Session Info D)
  pub current : Option (Session Info D)

module _ {Info D : Type 0} where
  abbrev pub idle : History Info D
  idle = record { ended = []; current = none }

  abbrev pub with_current : List (Session Info D) → Option (Session Info D) → List (Session Info D)
  with_current ss none = ss
  with_current ss (some s) = ss ++ s ∷ []

  -- What a command makes of the history of the name `k`.
  abbrev pub advance : Str → History Info D → Command Info D → History Info D
  advance k h (feed j i d) =
      if str_eq j k then record { ended = h.ended; current = some (added h.current i d) } else h
  advance k h (finish j) =
      if str_eq j k then record { ended = with_current h.ended h.current; current = none } else h
  advance k h skip = h
  advance k h (reject e) = h

  abbrev pub history : Str → History Info D → List (Command Info D) → History Info D
  history k h [] = h
  history k h (c ∷ cs) = history k (advance k h c) cs

  -- The tasks of a name when the stream has ended.
  abbrev pub sessions : Str → List (Command Info D) → List (Session Info D)
  sessions k cs = let h = history k idle cs in with_current h.ended h.current

  -- No request is refused, and none ends a task of a name that has no open task.
  abbrev pub Acceptable : List (Command Info D) → Command Info D → Type 0
  Acceptable past (feed j i d) = Unit
  Acceptable past (finish j) = (history j idle past).current ≢ none
  Acceptable past skip = Unit
  Acceptable past (reject e) = ⊥

  abbrev pub IsClean : List (Command Info D) → List (Command Info D) → Type 0
  IsClean past [] = Unit
  IsClean past (c ∷ cs) = Acceptable past c × IsClean (past ++ c ∷ []) cs

  pub history-append :
      (k : Str) (h : History Info D) (cs : List (Command Info D)) (c : Command Info D)
      → history k h (cs ++ c ∷ []) ≡ advance k (history k h cs) c
  history-append k h [] c = refl
  history-append k h (b ∷ cs) c = history-append k (advance k h b) cs c
