-- ===== src/Tests/Transforms.antt =====
-- The transforms' theorems on small lists of events.
use aw_server_plus.Prelude.{
  ◌≡◌, refl, ◌↔◌, ℤ, pos, String, none, some, List, [], ◌∷◌, true, ◌||◌, ◌&&◌, Returns, All,
  IsChain, string_eq, arith, ◌+ℤ◌, ◌-ℤ◌, half, max_ℤ, min_ℤ,
}
use aw_server_plus.Models.{Event, new, calculate_endtime}
use aw_server_plus.Models.Bucket.{Bucket}
use aw_server_plus.Models.Coverage.{covers, covered}
use aw_server_plus.Transform.Sort.{sort_by_timestamp}
use aw_server_plus.Transform.Heartbeat.{heartbeat}
use aw_server_plus.Transform.Heartbeat.Laws.{heartbeat_iff, Continues, merged}
use aw_server_plus.Transform.FindBucket.{find_bucket}
use aw_server_plus.Transform.UnionNoOverlap.{union_no_overlap}
use aw_server_plus.Transform.UnionNoOverlap.Laws.{union_no_overlap_covers}
use aw_server_plus.Transform.PeriodUnion.{period_union}
use aw_server_plus.Transform.PeriodUnion.Laws.{apart, period_union_lem}
use aw_server_plus.Transform.Flood.{flood}
use aw_server_plus.Transform.Flood.Coverage.{flood_covers}
use aw_server_plus.Transform.Flood.Gaps.{flooded, flood_fills}
use aw_server_plus.Transform.FilterPeriod.{filter_period_intersect}
use aw_server_plus.Transform.FilterPeriod.Laws.{
  filter_period_intersect_within, filter_period_intersect_exact,
}
use aw_server_plus.Tests.Values.{Entries, text, entry, end, json, value_eq, entries_eq}

abbrev app : String → Entries
app name = entry "app" (text name) end

-- Three events of an editor and a browser.
abbrev edit : Event Entries
edit = record { id = some (pos 7); timestamp = pos 0; duration = pos 10; data_map = app "edit" }

abbrev edit_again : Event Entries
edit_again = new (pos 12) (pos 5) (app "edit")

abbrev browse : Event Entries
browse = new (pos 20) (pos 3) (app "browse")

abbrev day : List (Event Entries)
day = browse ∷ edit ∷ edit_again ∷ []

abbrev edit_merged : Event Entries
edit_merged = new (pos 0) (pos 17) (app "edit")

heartbeat_run : heartbeat edit edit_again (pos 4) ≡ some edit_merged
unfolding heartbeat calculate_endtime new ◌+ℤ◌ ◌-ℤ◌
heartbeat_run = refl

heartbeat_late : heartbeat edit edit_again (pos 1) ≡ none
unfolding heartbeat calculate_endtime new ◌+ℤ◌ ◌-ℤ◌
heartbeat_late = refl

flood_run :
    flood (pos 5) day
    ≡ record edit_merged { id = some (pos 7); duration = pos 18 }
      ∷ new (pos 19) (pos 4) (app "browse")
      ∷ []
unfolding flood calculate_endtime new ◌+ℤ◌ ◌-ℤ◌ half max_ℤ min_ℤ sort_by_timestamp
flood_run = refl

heartbeat_iff_example :
    (heartbeat edit edit_again (pos 4) ≡ some edit_merged)
    ↔ (Continues edit edit_again (pos 4) × (edit_merged ≡ merged edit edit_again))
heartbeat_iff_example = heartbeat_iff edit edit_again edit_merged (pos 4)

abbrev bucket : String → String → Bucket Entries
bucket id hostname = record {
  bid = none;
  id = id;
  bucket_type = "test";
  client = "test";
  hostname = hostname;
  created = none;
  data_map = end;
  metadata = record { start = none; end = none };
  events = none;
  last_updated = none;
}

abbrev buckets : List (Bucket Entries)
buckets = bucket "afk_a" "a" ∷ bucket "window_a" "a" ∷ bucket "window" "b" ∷ []

find_bucket_run : find_bucket "window" none buckets ≡ some "window"
unfolding find_bucket
find_bucket_run = refl

union_no_overlap_covers_example :
    Returns
      (union_no_overlap (edit ∷ []) day)
      (λ r. (t : ℤ) → covered t r ≡ (covered t (edit ∷ []) || covered t day))
union_no_overlap_covers_example = union_no_overlap_covers (edit ∷ []) day

abbrev part : ℤ → Event Entries
part t = new t (pos 2) (app "browse")

period_union_lem_example :
    ((t : ℤ)
      → covered t (period_union json day (edit ∷ [])) ≡ (covered t day || covered t (edit ∷ [])))
    × IsChain apart (period_union json day (edit ∷ []))
    × All (λ e. e.data_map ≡ json.empty) (period_union json day (edit ∷ []))
unfolding new
period_union_lem_example = period_union_lem json day (edit ∷ []) (omega arith) (omega arith)

flood_covers_example : covered (pos 13) (flood (pos 5) day) ≡ true
unfolding covered covers calculate_endtime new ◌+ℤ◌
flood_covers_example = flood_covers (pos 5) day (pos 13) refl

flood_fills_example : IsChain (flooded (pos 5)) (flood (pos 5) day)
flood_fills_example = flood_fills (pos 5) day

filter_period_intersect_within_example :
    Returns
      (filter_period_intersect day (edit ∷ []))
      (λ r. (t : ℤ) → covered t r ≡ true → (covered t day && covered t (edit ∷ [])) ≡ true)
filter_period_intersect_within_example = filter_period_intersect_within day (edit ∷ [])

filter_period_intersect_exact_example :
    Returns
      (filter_period_intersect day (part (pos 1) ∷ part (pos 5) ∷ []))
      (λ r. (t : ℤ) → covered t r ≡ (covered t day && covered t (part (pos 1) ∷ part (pos 5) ∷ [])))
unfolding sort_by_timestamp new calculate_endtime ◌+ℤ◌
filter_period_intersect_exact_example =
    filter_period_intersect_exact day (part (pos 1) ∷ part (pos 5) ∷ [])
      ((refl, (refl, tt)), omega arith) ((refl, tt), omega arith)
