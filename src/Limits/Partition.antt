-- ===== src/Limits/Partition.antt =====
-- The allowed paths of a unit are split into the stable and the volatile ones.
use track3_simulation_public.Common.{
  ◌+◌, ◌≡◌, ◌&&◌, subst, refl, Bool, true, false, not, List, [], ◌∷◌, map, All, All-append, ◌==◌,
  if◌then◌else◌, arith, Bool-cases, inl, inr,
}
use track3_simulation_public.Common.Result.{ok, Text, ok_injective}
use track3_simulation_public.Semantics.Ledger.{count_if}
use track3_simulation_public.Limits.Domain.{
  BatchDocument, no_batch, unreadable, malformed, not_an_object, no_subs, bad_subs, subs_of,
}
use track3_simulation_public.Limits.Paths.{
  slash, single_unit_files, sub_files, trace_parquet, events_json, message_trace_parquet,
  profile_sidecar, path_in, sub_paths, allowed_paths_for, last_part_from, last_part, keep,
  is_stable, is_volatile, stable_paths_for, volatile_paths_for,
}

-- A name without a slash.
abbrev pub no_slash : Text → Bool
no_slash [] = true
no_slash (c ∷ cs) = not (c == slash) && no_slash cs

abbrev pub NoSlash : Text → Type 0
NoSlash cs = no_slash cs ≡ true

last_part_from-NoSlash : (part cs : Text) → NoSlash cs → last_part_from part cs ≡ part
unfolding last_part_from
last_part_from-NoSlash part [] h = refl
last_part_from-NoSlash part (c ∷ cs) h =
    ground (arith, h, last_part_from-NoSlash part cs (ground (arith, h)))

last_part_from-path :
    (part sub name : Text) → NoSlash name → last_part_from part (path_in sub name) ≡ name
unfolding last_part_from
last_part_from-path part [] name h = last_part_from-NoSlash name name h
last_part_from-path part (c ∷ sub) name h = elim (Bool-cases (c == slash)) [
  | inl cut ↦ rw cut (last_part_from-path (path_in sub name) sub name h)
  | inr kept ↦ rw kept (last_part_from-path part sub name h)
]

pub last_part-path_in : (sub name : Text) → NoSlash name → last_part (path_in sub name) ≡ name
last_part-path_in sub name h = last_part_from-path (path_in sub name) sub name h

-- A path is stable or volatile, and not both.
abbrev pub IsSplit : Text → Type 0
IsSplit p = is_stable p ≡ not (is_volatile p)

abbrev NameSplits : Text → Type 0
NameSplits name = NoSlash name × ((p : Text) → last_part p ≡ name → IsSplit p)

trace_parquet-splits : NameSplits trace_parquet
trace_parquet-splits = (refl, λ p e. rw e refl)

events_json-splits : NameSplits events_json
events_json-splits = (refl, λ p e. rw e refl)

message_trace_parquet-splits : NameSplits message_trace_parquet
message_trace_parquet-splits = (refl, λ p e. rw e refl)

profile_sidecar-splits : NameSplits profile_sidecar
profile_sidecar-splits = (refl, λ p e. rw e refl)

path_in-IsSplit : (sub name : Text) → NameSplits name → IsSplit (path_in sub name)
path_in-IsSplit sub name h = h.1 (path_in sub name) (last_part-path_in sub name h.0)

sub_paths-IsSplit : (subs : List Text) → All IsSplit (sub_paths subs)
unfolding sub_paths
sub_paths-IsSplit [] = tt
sub_paths-IsSplit (sub ∷ subs) =
    All-append IsSplit (map (path_in sub) sub_files) (sub_paths subs)
      (
        path_in-IsSplit sub trace_parquet trace_parquet-splits,
        (
          path_in-IsSplit sub events_json events_json-splits,
          (
            path_in-IsSplit sub message_trace_parquet message_trace_parquet-splits,
            (path_in-IsSplit sub profile_sidecar profile_sidecar-splits, tt),
          ),
        ),
      )
      (sub_paths-IsSplit subs)

single_unit_files-IsSplit : All IsSplit single_unit_files
unfolding last_part_from
single_unit_files-IsSplit = (refl, (refl, (refl, (refl, tt))))

allowed_paths_for-IsSplit :
    (d : BatchDocument) (ps : List Text) → allowed_paths_for d ≡ ok ps → All IsSplit ps
unfolding allowed_paths_for last_part_from
allowed_paths_for-IsSplit no_batch ps h =
    subst (All IsSplit) (ok_injective _ _ h) single_unit_files-IsSplit
allowed_paths_for-IsSplit unreadable ps h = cc
allowed_paths_for-IsSplit malformed ps h = cc
allowed_paths_for-IsSplit not_an_object ps h = cc
allowed_paths_for-IsSplit no_subs ps h = cc
allowed_paths_for-IsSplit bad_subs ps h = cc
allowed_paths_for-IsSplit (subs_of subs) ps h =
    subst (All IsSplit) (ok_injective _ _ h) (refl, sub_paths-IsSplit subs)

split_of :
    (q : Text → Bool) (stable volatile : Bool) (p : Text) (ps : List Text)
    → stable ≡ not volatile
    → count_if q ps ≡ count_if q (keep is_stable ps) + count_if q (keep is_volatile ps)
    → count_if q (p ∷ ps)
      ≡ count_if q (if stable then p ∷ keep is_stable ps else keep is_stable ps)
        + count_if q (if volatile then p ∷ keep is_volatile ps else keep is_volatile ps)
split_of q true true p ps h e = cc
split_of q true false p ps h e = ground (arith, e)
split_of q false true p ps h e = ground (arith, e)
split_of q false false p ps h e = cc

count_if-split :
    (q : Text → Bool) (ps : List Text)
    → All IsSplit ps
    → count_if q ps ≡ count_if q (keep is_stable ps) + count_if q (keep is_volatile ps)
unfolding keep
count_if-split q [] h = refl
count_if-split q (p ∷ ps) h =
    split_of q (is_stable p) (is_volatile p) p ps h.0 (count_if-split q ps h.1)

-- The allowed paths of a unit are those that are stable and those that are volatile, each of them one
-- of the two: of the allowed paths that pass any test, each is among the stable ones or among the
-- volatile ones, as often as it is allowed.
pub stable_paths_for-split :
    (d : BatchDocument) (ps : List Text)
    → allowed_paths_for d ≡ ok ps
    → (ss : List Text) × (vs : List Text) × (stable_paths_for d ≡ ok ss)
      × (volatile_paths_for d ≡ ok vs)
      × ((q : Text → Bool) → count_if q ps ≡ count_if q ss + count_if q vs)
unfolding stable_paths_for volatile_paths_for
stable_paths_for-split d ps h = (
  keep is_stable ps,
  keep is_volatile ps,
  rw h refl,
  rw h refl,
  λ q. count_if-split q ps (allowed_paths_for-IsSplit d ps h),
)
