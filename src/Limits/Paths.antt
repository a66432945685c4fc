-- ===== src/Limits/Paths.antt =====
-- qfbench2_track_simulation/limits.py: the paths that a submission may write for a unit.
use track3_simulation_public.Common.{ℕ, Bool, List, [], ◌∷◌, ◌++◌, map, ◌==◌, if◌then◌else◌}
use track3_simulation_public.Common.Int.{ℤ, pos, negsuc}
use track3_simulation_public.Common.Result.{Result, error, ok, ◌>>=◌, Text, is_member}
use track3_simulation_public.Limits.Domain.{
  Failure, value_error, os_error, type_error, key_error, BatchDocument, no_batch, unreadable,
  malformed, not_an_object, no_subs, bad_subs, subs_of,
}

-- "trace.parquet"
abbrev pub trace_parquet : Text
trace_parquet = 116 ∷ 114 ∷ 97 ∷ 99 ∷ 101 ∷ 46 ∷ 112 ∷ 97 ∷ 114 ∷ 113 ∷ 117 ∷ 101 ∷ 116 ∷ []

-- "events.json"
abbrev pub events_json : Text
events_json = 101 ∷ 118 ∷ 101 ∷ 110 ∷ 116 ∷ 115 ∷ 46 ∷ 106 ∷ 115 ∷ 111 ∷ 110 ∷ []

-- "message_trace.parquet"
abbrev pub message_trace_parquet : Text
message_trace_parquet =
    109 ∷ 101 ∷ 115 ∷ 115 ∷ 97 ∷ 103 ∷ 101 ∷ 95 ∷ 116 ∷ 114 ∷ 97 ∷ 99 ∷ 101 ∷ 46 ∷ 112 ∷ 97 ∷ 114
    ∷ 113 ∷ 117 ∷ 101 ∷ 116 ∷ []

-- "profile.json"
abbrev pub profile_sidecar : Text
profile_sidecar = 112 ∷ 114 ∷ 111 ∷ 102 ∷ 105 ∷ 108 ∷ 101 ∷ 46 ∷ 106 ∷ 115 ∷ 111 ∷ 110 ∷ []

-- "batch_events.json"
abbrev pub batch_events_json : Text
batch_events_json =
    98 ∷ 97 ∷ 116 ∷ 99 ∷ 104 ∷ 95 ∷ 101 ∷ 118 ∷ 101 ∷ 110 ∷ 116 ∷ 115 ∷ 46 ∷ 106 ∷ 115 ∷ 111 ∷ 110
    ∷ []

-- "/"
abbrev pub slash : ℕ
slash = 47

abbrev pub single_unit_files : List Text
single_unit_files = trace_parquet ∷ events_json ∷ message_trace_parquet ∷ profile_sidecar ∷ []

abbrev pub batch_root_files : List Text
batch_root_files = batch_events_json ∷ []

abbrev pub sub_files : List Text
sub_files = trace_parquet ∷ events_json ∷ message_trace_parquet ∷ profile_sidecar ∷ []

abbrev pub stable_output_files : List Text
stable_output_files = trace_parquet ∷ message_trace_parquet ∷ []

abbrev pub volatile_output_files : List Text
volatile_output_files = events_json ∷ batch_events_json ∷ profile_sidecar ∷ []

abbrev pub path_in : Text → Text → Text
path_in sub name = sub ++ slash ∷ name

-- The paths of the sub-scenarios.
unfoldable pub sub_paths : List Text → List Text
sub_paths [] = []
sub_paths (sub ∷ subs) = map (path_in sub) sub_files ++ sub_paths subs

-- `allowed_paths_for`; it reads the document without the checks of `batch_width`.
unfoldable pub allowed_paths_for : BatchDocument → Result Failure (List Text)
allowed_paths_for no_batch = ok single_unit_files
allowed_paths_for unreadable = error os_error
allowed_paths_for malformed = error value_error
allowed_paths_for not_an_object = error type_error
allowed_paths_for no_subs = error key_error
allowed_paths_for bad_subs = error type_error
allowed_paths_for (subs_of subs) = ok (batch_root_files ++ sub_paths subs)

-- `p.rsplit("/", 1)[-1]`, where `rest` is what follows the last slash so far.
unfoldable pub last_part_from : Text → Text → Text
last_part_from part [] = part
last_part_from part (c ∷ cs) = if c == slash then last_part_from cs cs else last_part_from part cs

abbrev pub last_part : Text → Text
last_part p = last_part_from p p

unfoldable pub keep {ℓ} : {A : Type ℓ} → (A → Bool) → List A → List A
keep p [] = []
keep p (x ∷ xs) = if p x then x ∷ keep p xs else keep p xs

abbrev pub is_stable : Text → Bool
is_stable p = is_member (last_part p) stable_output_files

abbrev pub is_volatile : Text → Bool
is_volatile p = is_member (last_part p) volatile_output_files

unfoldable pub stable_paths_for : BatchDocument → Result Failure (List Text)
stable_paths_for d = do ps ← allowed_paths_for d; ok (keep is_stable ps)

unfoldable pub volatile_paths_for : BatchDocument → Result Failure (List Text)
volatile_paths_for d = do ps ← allowed_paths_for d; ok (keep is_volatile ps)

-- `max_rows_for`; `scaled` is the truncated float product by one more than the slack.
unfoldable pub max_rows_for : {F : Type 0} → (ℕ → F → ℕ) → ℤ → F → Result Failure ℕ
max_rows_for scaled (pos rows) slack = ok (scaled rows slack)
max_rows_for scaled (negsuc rows) slack = error value_error
