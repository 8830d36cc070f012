-- ===== src/Evidence/Bound.antt =====
-- What the evidence of a completion says (rust/worker/src/control/completion_payload.rs).
use mathlib.Core.List.{Perm}
use mathlib.Core.Path.{subst}
use distributed_execution.Base.{
  All, Pairs, IsOrdered, sort_by-IsOrdered, bytes_le, bytes_le_total, bytes_le_trans,
  bytes_le_antisym, bytes_eq_iff, sym, zero, suc, ◌≡◌, ◌≢◌, ◌≤◌, refl, ok, true, false, Bytes,
  arith, Bool, not, ◌&&◌, Result, none, some, [], List, pos, negsuc, ℤ, >>=-ok, sort_by,
  sort_by-Perm, length, ◌∷◌, is_empty, Option, any_neighbours, guarded, required_ok, all,
  has_repeated, map,
}
use distributed_execution.Control.{
  AttemptAuthority, CompleteAttemptRequest, configuration, ClientError, LogGap, OutputReference,
  failure_reason_try_from, FailureReason, failure_reason_unspecified, worker_lost,
}
use distributed_execution.Evidence.{
  Encoding, completion_payload, payload_for, within_bounds, Payload, payload_outputs, reason_fits,
  name_le, output_fits, same_name, completion_digest,
}

-- What a request may claim.
pub record IsEvidence (r : CompleteAttemptRequest) : Type 0 where
  pub few_outputs : length r.outputs ≤ 64
  pub few_gaps : length r.gaps ≤ 1024
  pub success : r.reason ≡ pos 0 → (r.exit_code ≡ some (pos 0)) × (r.stopped ≡ true)
  pub not_lost : r.reason ≢ pos 1
  pub complete : r.logs_complete ≡ true → r.gaps ≡ []

abbrev pub Differ : OutputReference → OutputReference → Type 0
Differ a b = a.name ≢ b.name

-- The outputs in the order of their names, of which no two are the same.
abbrev pub Lists : List OutputReference → List OutputReference → Type 0
Lists outputs listed =
    Pairs Differ listed × Pairs (λ a b. name_le a b ≡ true) listed × Perm listed outputs

unequal_names : (a b : OutputReference) → same_name a b ≡ false → Differ a b
unequal_names a b h e = ground (arith, (bytes_eq_iff a.name b.name).1 e)

-- What comes after an item that is behind another in the order.
later_Differ :
    (a b : OutputReference) (rest : List OutputReference)
    → Differ a b
    → name_le a b ≡ true
    → All (λ c. name_le b c ≡ true) rest
    → All (Differ a) rest
later_Differ a b [] h k order = tt
later_Differ a b (c ∷ rest) h k (first, order) = (
  λ e. h (bytes_le_antisym a.name b.name k (subst (λ x. bytes_le b.name x ≡ true) (sym e) first)),
  later_Differ a b rest h k order,
)

ordered_Differ :
    (listed : List OutputReference)
    → any_neighbours same_name listed ≡ false
    → IsOrdered name_le listed
    → Pairs Differ listed
ordered_Differ [] h order = tt
ordered_Differ (a ∷ []) h order = (tt, tt)
ordered_Differ (a ∷ b ∷ rest) h ((first, _), ((order, more))) =
    let here : Differ a b = unequal_names a b (ground arith) in
    (
      (here, later_Differ a b rest here first order),
      ordered_Differ (b ∷ rest) (ground arith) (order, more),
    )

sorted_order : (outputs : List OutputReference) → IsOrdered name_le (sort_by name_le outputs)
sorted_order outputs =
    sort_by-IsOrdered name_le (λ a b h. bytes_le_total a.name b.name h)
      (λ a b c h k. bytes_le_trans a.name b.name c.name h k) outputs

zero_exit :
    (exit_code : Option ℤ) (stopped : Bool)
    → reason_fits failure_reason_unspecified exit_code stopped ≡ true
    → (exit_code ≡ some (pos 0)) × (stopped ≡ true)
zero_exit none stopped h = absurd (ground arith)
zero_exit (some (pos zero)) stopped h = (refl, h)
zero_exit (some (pos (suc n))) stopped h = absurd (ground arith)
zero_exit (some (negsuc n)) stopped h = absurd (ground arith)

fits-success :
    (reason : ℤ) (exit_code : Option ℤ) (stopped : Bool) (f : FailureReason)
    → failure_reason_try_from reason ≡ some f
    → reason_fits f exit_code stopped ≡ true
    → reason ≡ pos 0
    → (exit_code ≡ some (pos 0)) × (stopped ≡ true)
fits-success reason exit_code stopped f h k e =
    let specified : f ≡ failure_reason_unspecified = ground arith in
    zero_exit exit_code stopped (subst (λ g. reason_fits g exit_code stopped ≡ true) specified k)

fits-not_lost :
    (reason : ℤ) (exit_code : Option ℤ) (stopped : Bool) (f : FailureReason)
    → failure_reason_try_from reason ≡ some f
    → reason_fits f exit_code stopped ≡ true
    → reason ≢ pos 1
fits-not_lost reason exit_code stopped f h k e =
    let lost : f ≡ worker_lost = ground arith in
    let no : false ≡ true = subst (λ g. reason_fits g exit_code stopped ≡ true) lost k in cc

abbrev succeeds : List OutputReference → Result ClientError (List OutputReference)
succeeds = ok

sorted_lists :
    (outputs listed : List OutputReference)
    → not (any_neighbours same_name (sort_by name_le outputs)) ≡ true
    → succeeds (sort_by name_le outputs) ≡ succeeds listed
    → Lists outputs listed
sorted_lists outputs listed apart h =
    let same : sort_by name_le outputs ≡ listed = ground arith in
    subst (λ l. Lists outputs l) same
      (
        ordered_Differ (sort_by name_le outputs) (ground arith) (sorted_order outputs),
        sorted_order outputs,
        sort_by-Perm name_le outputs,
      )

pub payload_outputs-Lists :
    (outputs listed : List OutputReference)
    → payload_outputs outputs ≡ ok listed
    → Lists outputs listed
unfolding payload_outputs
payload_outputs-Lists outputs listed h =
    let (_, rest) =
      guarded (all output_fits outputs && not (has_repeated (map (λ o. o.artifact_id) outputs)))
        configuration _ h in
    let (apart, same) =
      guarded (not (any_neighbours same_name (sort_by name_le outputs))) configuration _ rest in
    sorted_lists outputs listed apart same

bounded_lists :
    (a : AttemptAuthority) (r : CompleteAttemptRequest)
    → within_bounds a r ≡ true
    → (length r.outputs ≤ 64) × (length r.gaps ≤ 1024)
unfolding within_bounds
bounded_lists a r h = ground arith

no_gaps :
    (complete : Bool) (gaps : List LogGap)
    → not (complete && not (is_empty gaps)) ≡ true
    → complete ≡ true
    → gaps ≡ []
no_gaps complete [] h c = refl
no_gaps complete (gap ∷ gaps) h c = absurd (ground arith)

evidence :
    (e : Encoding) (a : AttemptAuthority) (r : CompleteAttemptRequest) (m : Payload e.Metrics)
    → payload_for e a r ≡ ok m
    → IsEvidence r × (outputs : List OutputReference) × Lists r.outputs outputs
unfolding payload_for
evidence e a r m h =
    let (bounds, h1) = guarded (within_bounds a r) configuration _ h in
    let (reason, named, h2) = required_ok (failure_reason_try_from r.reason) configuration _ h1 in
    let (fits, h3) = guarded (reason_fits reason r.exit_code r.stopped) configuration _ h2 in
    let (listed, listing, h4) = >>=-ok (payload_outputs r.outputs) _ h3 in
    let (whole, _) = guarded (not (r.logs_complete && not (is_empty r.gaps))) configuration _ h4 in
    let (few_outputs, few_gaps) = bounded_lists a r bounds in
    (
      record {
        few_outputs = few_outputs;
        few_gaps = few_gaps;
        success = λ s. fits-success r.reason r.exit_code r.stopped reason named fits s;
        not_lost = fits-not_lost r.reason r.exit_code r.stopped reason named fits;
        complete = no_gaps r.logs_complete r.gaps whole;
      },
      listed,
      payload_outputs-Lists r.outputs listed listing,
    )

pub completion_digest-IsEvidence :
    (e : Encoding) (r : CompleteAttemptRequest) (digest : Bytes)
    → completion_digest e r ≡ ok digest
    → IsEvidence r × (outputs : List OutputReference) × Lists r.outputs outputs
unfolding completion_digest completion_payload
completion_digest-IsEvidence e r digest h =
    let (m, made, _) = >>=-ok (completion_payload e r) _ h in
    let (a, _, for_a) = required_ok r.authority configuration _ made in evidence e a r m for_a
