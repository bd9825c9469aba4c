-- ===== src/Filter/Overlaps.antt =====
-- `removeOverlaps`: sort by start, longer first, then accept greedily.
pub mod Laws
use haechi.Prelude.{ℕ, ◌+◌, Bool, List, [], ◌∷◌, ◌&&◌, ◌||◌, ltb, leb, ◌==◌, if◌then◌else◌}
use haechi.Prelude.Sort.{sort}
use haechi.Core.{Detection}

-- Whether the comparator puts `l` no later than `r`; its difference of lengths is written as a sum.
abbrev pub in_order : Detection → Detection → Bool
in_order l r = ltb l.start r.start || l.start == r.start && leb (r.end + l.start) (l.end + r.start)

-- The loop; the source's first `lastEnd` is -1, which no start is below, nor below 0.
unfoldable pub accept : ℕ → List Detection → List Detection
accept last_end [] = []
accept last_end (d ∷ ds) = if ltb d.start last_end then accept last_end ds else d ∷ accept d.end ds

unfoldable pub remove_overlaps : List Detection → List Detection
unfolding accept
remove_overlaps ds = accept 0 (sort in_order ds)
