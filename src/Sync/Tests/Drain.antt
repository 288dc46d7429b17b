-- ===== src/Sync/Tests/Drain.antt =====
-- A client that has nothing yet drains a log of one change.
use quire_server.Base.{
  ℕ, ◌≡◌, ◌≤◌, ◌+◌, ◌*◌, refl, arith, Bool-cases, inl, inr, some, List, [], ◌∷◌, Text, codes, find,
  drop, ◌==◌, text_eq, eq_iff,
}
use quire_server.Sync.Wire.{Change}
use quire_server.Sync.Apply.Log.{log}
use quire_server.Sync.Apply.Page.{Serves, sync-IsConsistent}
use quire_server.Sync.Apply.Drain.{drain, IsReadable, drain-Serves}
use quire_server.Sync.Tests.{
  codec, before, after, clock, request, response, stored, codec-IsLawful, before-IsConsistent,
  synced,
}

after-IsReadable : IsReadable codec (codes "u") clock (log (codes "u") after.changes)
unfolding log quire_server.Base.text_beq
after-IsReadable = ((stored, refl), tt)

after_cursor : find (codes "u") after.cursors ≡ some 1
unfolding find quire_server.Base.text_beq
after_cursor = refl

at_first : 0 ≤ 1
at_first = omega arith

few : 1 ≤ 0 + 100 * (0 + 1)
few = omega arith

drain-Serves_example :
    (chs : List Change) × (drain codec (codes "u") clock 1 0 after ≡ some chs)
    × Serves codec (drop 0 (log (codes "u") after.changes)) chs
drain-Serves_example =
    drain-Serves codec (codes "u") clock 0 0 1 after
      (sync-IsConsistent codec (codes "u") clock request before after response codec-IsLawful
        before-IsConsistent synced)
      after-IsReadable after_cursor at_first few
