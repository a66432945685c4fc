-- ===== src/Telemetry/Ranked.antt =====
-- What a ranked rate rests on, and whose fault it is that there is none.
use track3_simulation_public.Common.{
  ℕ, ◌+◌, ◌≡◌, refl, sym, ap, subst, ◌⊎◌, inl, inr, Bool, true, false, Option, none, some, List, [],
  ◌∷◌, map, length, All, ◌==◌, arith,
}
use track3_simulation_public.Telemetry.Verdict.{
  Verdict, accepted, organizer_fault, participant_failure, is_participants, ◌>>=◌, require,
  require_of_participant, accepted_injective, past_step, bind-accepted, bind-is_participants,
  require-holds, require-is_participants, require_of_participant-holds,
}
use track3_simulation_public.Telemetry.Timing.{
  TracePath, TelemetryBlock, Repeat, RunRecord, Plan, RankedTiming, Reason, row_count, tally,
  sum_counts, wanted, total_or_missing, drop, every, is_idle, policy, is_expected,
  require_official_telemetry, require_exclusive_instance, trusted_event_count, measured_repeats,
  reproduces, is_some_repeat, assert_repeats_reproduce_scored_tree, ranked_timing,
}

-- The counts of all the paths, which are all there, add up to the number.
abbrev pub CountsTo : List (TracePath × ℕ) → List TracePath → ℕ → Type 0
CountsTo cs [] n = n ≡ 0
CountsTo cs (p ∷ ps) n = (m k : ℕ) × (row_count p cs ≡ some m) × CountsTo cs ps k × (n ≡ m + k)

sum_counts-CountsTo :
    (cs : List (TracePath × ℕ)) (ps : List TracePath)
    → (sum_counts cs ps).1 ≡ []
    → CountsTo cs ps (sum_counts cs ps).0
unfolding sum_counts
sum_counts-CountsTo cs [] h = refl
sum_counts-CountsTo cs (p ∷ ps) h =
    by_count (row_count p cs) refl (sum_counts cs ps) h (sum_counts-CountsTo cs ps)
  where
    by_count :
        (o : Option ℕ)
        → row_count p cs ≡ o
        → (t : ℕ × List TracePath) → (tally o p t).1 ≡ []
        → (t.1 ≡ [] → CountsTo cs ps t.0)
        → CountsTo cs (p ∷ ps) (tally o p t).0
    by_count none e t h f = cc
    by_count (some m) e t h f = (m, t.0, e, f h, refl)

total-CountsTo :
    (cs : List (TracePath × ℕ)) (ps : List TracePath) (n : ℕ)
    → total_or_missing (sum_counts cs ps) ≡ accepted n
    → CountsTo cs ps n
total-CountsTo cs ps n h = by_missing (sum_counts cs ps) h (sum_counts-CountsTo cs ps)
  where
    by_missing :
        (t : ℕ × List TracePath)
        → total_or_missing t ≡ accepted n
        → (t.1 ≡ [] → CountsTo cs ps t.0)
        → CountsTo cs ps n
    by_missing (total, []) h f = subst (CountsTo cs ps) (accepted_injective _ _ h) (f refl)
    by_missing (total, q ∷ qs) h f = cc

every-All {ℓ} :
    {A : Type ℓ} (p : A → Bool) (xs : List A) → every p xs ≡ true → All (λ x. p x ≡ true) xs
every-All p [] h = tt
every-All p (x ∷ xs) h = (ground (arith, h), every-All p xs (ground (arith, h)))

policy-inv :
    (a b : Option ℕ) (v : ℕ × ℕ) → policy a b ≡ accepted v → (a ≡ some v.0) × (b ≡ some v.1)
policy-inv none b v h = cc
policy-inv (some r) none v h = cc
policy-inv (some r) (some d) v h =
    let e = accepted_injective (r, d) v h in
    (ap (λ (w : ℕ × ℕ). some w.0) e, ap (λ (w : ℕ × ℕ). some w.1) e)

counts-is_participants : (t : ℕ × List TracePath) → is_participants (total_or_missing t) ≡ false
counts-is_participants (total, []) = refl
counts-is_participants (total, p ∷ ps) = refl

same_number : (m n : ℕ) → (m == n) ≡ true → m ≡ n
same_number m n h = ground (arith, h)

module _ {F : Type 0} where
  -- The instance had no other work.
  abbrev pub Idle : RunRecord F → Type 0
  Idle r = (t : TelemetryBlock) × (r.telemetry ≡ some t) × (is_idle t ≡ true)

  -- The repeats are as many as committed, all rankable, and `ps` are those after the warm-up.
  pub record Measured (r : RunRecord F) (plan : Plan) (ps : List (Repeat F)) : Type 0 where
    pub expected : ℕ
    pub discard : ℕ
    pub committed : plan.repeats ≡ some expected
    pub warmup : plan.warmup_discarded ≡ some discard
    pub as_many : length r.repeats ≡ expected
    pub rankable : All (λ (p : Repeat F). p.is_rankable ≡ true) r.repeats
    pub measured : ps ≡ drop discard r.repeats

  exclusive-Idle :
      (r : RunRecord F) (u : Unit {0}) → require_exclusive_instance r ≡ accepted u → Idle r
  unfolding require_exclusive_instance
  exclusive-Idle r u h = by_block r.telemetry refl h
    where
      by_block :
          (o : Option TelemetryBlock)
          → r.telemetry ≡ o
          → (elim o [
            | none ↦ organizer_fault Reason.no_telemetry
            | some t ↦ require (is_idle t) Reason.shared_instance
          ])
            ≡ accepted u
          → Idle r
      by_block none e h = cc
      by_block (some t) e h = (t, e, require-holds (is_idle t) _ u h)

  measured_repeats-Measured :
      (r : RunRecord F) (plan : Plan) (ps : List (Repeat F))
      → measured_repeats r plan ≡ accepted ps
      → Measured r plan ps
  unfolding measured_repeats
  measured_repeats-Measured r plan ps h =
      let (v, a, h1) = bind-accepted _ _ ps h in
      let (u1, b, h2) = bind-accepted _ _ ps h1 in
      let (u2, c, h3) = bind-accepted _ _ ps h2 in
      let (e, d) = policy-inv _ _ v a in
      record {
        expected = v.0;
        discard = v.1;
        committed = e;
        warmup = d;
        as_many = same_number (length r.repeats) v.0 (require-holds _ _ u1 b);
        rankable = every-All _ r.repeats (require-holds _ _ u2 c);
        measured = sym (accepted_injective _ _ h3);
      }

  exclusive-is_participants :
      (r : RunRecord F) → is_participants (require_exclusive_instance r) ≡ false
  unfolding require_exclusive_instance
  exclusive-is_participants r = by_block r.telemetry
    where
      by_block :
          (o : Option TelemetryBlock)
          → is_participants (elim o [
            | none ↦ organizer_fault Reason.no_telemetry
            | some t ↦ require (is_idle t) Reason.shared_instance
          ])
            ≡ false
      by_block none = refl
      by_block (some t) = require-is_participants (is_idle t) Reason.shared_instance

  measured-is_participants :
      (r : RunRecord F) (plan : Plan) → is_participants (measured_repeats r plan) ≡ false
  unfolding measured_repeats
  measured-is_participants r plan =
      by_policy (policy plan.repeats plan.warmup_discarded) (policy-part _ _)
    where
      policy-part : (a b : Option ℕ) → is_participants (policy a b) ≡ false
      policy-part none b = refl
      policy-part (some a) none = refl
      policy-part (some a) (some b) = refl

      by_policy :
          (v : Verdict Reason (ℕ × ℕ))
          → is_participants v ≡ false
          → is_participants (do
            (expected, discard) ← v
            _ ← require (length r.repeats == expected) Reason.repeat_count
            _ ← require (every (λ (p : Repeat F). p.is_rankable) r.repeats) Reason.unrankable_repeat
            accepted (drop discard r.repeats))
            ≡ false
      by_policy (accepted (e, d)) h = ground arith
      by_policy (organizer_fault e) h = refl
      by_policy (participant_failure e) h = cc

  module _ (admissible : RunRecord F → Bool) (is_positive is_finite : F → Bool) (rate : ℕ → F → F)
      (median : List F → F) where
    -- What an accepted rate rests on.
    pub record Ranked (r : RunRecord F) (plan : Plan) (reference : Option ℕ)
        (names : Option (List ℕ)) (t : RankedTiming F) : Type 0 where
      pub repeats : List (Repeat F)
      pub telemetry : admissible r ≡ true
      pub idle : Idle r
      pub counted : CountsTo r.output_row_counts (wanted names) t.n_events
      pub expected : is_expected reference t.n_events ≡ true
      pub from_plan : Measured r plan repeats
      pub some_repeat : is_some_repeat repeats ≡ true
      pub reproduced : All (λ p. reproduces r t.n_events p ≡ true) repeats
      pub timed : All (λ (p : Repeat F). is_positive p.elapsed_sec ≡ true) repeats
      pub median_rate :
          t.events_per_sec ≡ median (map (λ (p : Repeat F). rate t.n_events p.elapsed_sec) repeats)
      pub finite_rate : is_finite t.events_per_sec ≡ true

    -- Every accepted rate is the median of the rates of the measured repeats of an idle instance
    -- with admissible telemetry; its numerator is the sum of the Runner's counts of the declared
    -- traces, the reference's if one is given; and every measured repeat reproduced the scored tree.
    pub ranked_timing-Ranked :
        (r : RunRecord F) (plan : Plan) (reference : Option ℕ) (names : Option (List ℕ))
        (t : RankedTiming F)
        → ranked_timing admissible is_positive is_finite rate median r plan reference names
          ≡ accepted t
        → Ranked r plan reference names t
    unfolding ranked_timing require_official_telemetry trusted_event_count
        assert_repeats_reproduce_scored_tree
    ranked_timing-Ranked r plan reference names t h =
        let (u1, a, h1) = bind-accepted _ _ t h in
        let (u2, b, h2) = bind-accepted _ _ t h1 in
        let (n, c, h3) = bind-accepted _ _ t h2 in
        let (u3, d, h4) = bind-accepted _ _ t h3 in
        let (ps, e, h5) = bind-accepted _ _ t h4 in
        let (u4, f, h6) = bind-accepted _ _ t h5 in
        let (u5, g, h7) = bind-accepted _ _ t h6 in
        let (u6, i, h8) = bind-accepted _ _ t h7 in
        let (u7, j, h9) = bind-accepted _ _ t h8 in
        let same = accepted_injective _ _ h9 in
        subst (Ranked r plan reference names) same (record {
          repeats = ps;
          telemetry = require-holds _ _ u1 a;
          idle = exclusive-Idle r u2 b;
          counted = total-CountsTo r.output_row_counts (wanted names) n c;
          expected = require_of_participant-holds _ _ u3 d;
          from_plan = measured_repeats-Measured r plan ps e;
          some_repeat = require-holds _ _ u4 f;
          reproduced = every-All _ ps (require_of_participant-holds _ _ u5 g);
          timed = every-All _ ps (require-holds _ _ u6 i);
          median_rate = refl;
          finite_rate = require-holds _ _ u7 j;
        })

    -- The evidence that the organizer has to establish before a participant is charged: admissible
    -- telemetry, an idle instance and all counts; and what the participant then did wrong.
    pub record Charged (r : RunRecord F) (plan : Plan) (reference : Option ℕ)
        (names : Option (List ℕ)) : Type 0 where
      pub n_events : ℕ
      pub telemetry : admissible r ≡ true
      pub idle : Idle r
      pub counted : CountsTo r.output_row_counts (wanted names) n_events
      pub fault :
          (is_expected reference n_events ≡ false)
          ⊎ ((ps : List (Repeat F)) × Measured r plan ps
              × (every (reproduces r n_events) ps ≡ false))

    of_participant :
        (b : Bool) (e : Reason) → is_participants (require_of_participant b e) ≡ true → b ≡ false
    of_participant true e h = cc
    of_participant false e h = refl

    -- The tests on the measured repeats.
    abbrev tested :
        RunRecord F → ℕ → RankedTiming F → List (Repeat F) → Verdict Reason (RankedTiming F)
    tested r n t ps = do
      _ ← require (is_some_repeat ps) Reason.nothing_measured
      _ ← assert_repeats_reproduce_scored_tree r ps n
      _ ← require (every (λ (p : Repeat F). is_positive p.elapsed_sec) ps) Reason.bad_clock
      _ ←
          require (is_finite (median (map (λ (p : Repeat F). rate n p.elapsed_sec) ps)))
            Reason.bad_median
      accepted t

    tested-every :
        (r : RunRecord F) (n : ℕ) (ps : List (Repeat F)) (t : RankedTiming F)
        → is_participants (tested r n t ps) ≡ true
        → every (reproduces r n) ps ≡ false
    unfolding assert_repeats_reproduce_scored_tree
    tested-every r n ps t h = ground (arith, h)

    charge :
        (r : RunRecord F) (plan : Plan) (reference : Option ℕ) (n : ℕ)
        (t : List (Repeat F) → RankedTiming F)
        → is_participants (do
          _ ← require_of_participant (is_expected reference n) Reason.event_count_differs
          ps ← measured_repeats r plan
          tested r n (t ps) ps)
          ≡ true
        → (is_expected reference n ≡ false)
          ⊎ ((ps : List (Repeat F)) × Measured r plan ps × (every (reproduces r n) ps ≡ false))
    charge r plan reference n t h =
        elim (bind-is_participants
          (require_of_participant (is_expected reference n) Reason.event_count_differs)
          (λ u. measured_repeats r plan >>= λ ps. tested r n (t ps) ps) h) [
            | inl wrong_count ↦ inl (of_participant (is_expected reference n) _ wrong_count)
            | inr (u, d, h') ↦
                let (ps, e, h'') =
                  past_step (measured_repeats r plan) (λ ps. tested r n (t ps) ps)
                    (measured-is_participants r plan) h' in
                inr (ps, measured_repeats-Measured r plan ps e, tested-every r n ps (t ps) h'')
          ]

    -- A unit is charged to the participant only with admissible telemetry from an idle instance and
    -- all counts at hand: for a count that is not the reference's, or, with the repeats as the plan
    -- commits them and all rankable, for a measured repeat that did not reproduce the scored tree.
    pub ranked_timing-Charged :
        (r : RunRecord F) (plan : Plan) (reference : Option ℕ) (names : Option (List ℕ))
        → is_participants
            (ranked_timing admissible is_positive is_finite rate median r plan reference names)
          ≡ true
        → Charged r plan reference names
    unfolding ranked_timing require_official_telemetry trusted_event_count
    ranked_timing-Charged r plan reference names h =
        let (u1, a, h1) = past_step _ _ (require-is_participants (admissible r) _) h in
        let (u2, b, h2) = past_step _ _ (exclusive-is_participants r) h1 in
        let (n, c, h3) =
          past_step _ _ (counts-is_participants (sum_counts r.output_row_counts (wanted names)))
            h2 in
        record {
          n_events = n;
          telemetry = require-holds _ _ u1 a;
          idle = exclusive-Idle r u2 b;
          counted = total-CountsTo r.output_row_counts (wanted names) n c;
          fault = charge r plan reference n _ h3;
        }
