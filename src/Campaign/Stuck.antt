-- ===== src/Campaign/Stuck.antt =====
-- `resume` of src/campaigns/campaigns.service.ts for a campaign whose recipients were all settled
-- while it was paused.

use mathlib.Core.Option.{some-injective}
use mathlib.Core.Path.{subst}
use api_whats_app.Base.{
  ℕ, ◌-◌, ◌==◌, ltb, Bool, true, false, ◌&&◌, Option, some, List, [], ◌∷◌, ◌≡◌, sym, ap, ◌∙◌, inl,
  inr, arith, Bool-cases, find, find-key, All, count_if, claimed_first, find-update_where,
}
use api_whats_app.Base.Result.{ok, >>=-eq-ok, guard->>-eq-ok, or_fail-eq-ok, ok-injective}
use api_whats_app.Campaign.{
  running, paused, Campaign, campaign_row, Recipient, recipient_row, CampaignDb, no_open,
  same_status, is_future, find_by_id, resumed_row, resume_row,
}
use api_whats_app.Campaign.Launch.{resume}
use api_whats_app.Campaign.Processor.{claim_recipients, claimable, claim_test, claimed_row}
use api_whats_app.Campaign.Moves.{resumed-id}
use api_whats_app.Campaign.Completion.{open_of, count-open}
use api_whats_app.Campaign.Settled.{is_open, of_tenant-eq-some}

and_true-left : (a b : Bool) → (a && b) ≡ true → a ≡ true
and_true-left a b h = ground (arith, h)

module _ (locked : ℕ → Bool) (now config id : ℕ) (db : CampaignDb) where
  claim_test-open : (r : Recipient) → claim_test locked now db r ≡ true → is_open r.status ≡ true
  unfolding claimable
  claim_test-open r h = ground (arith, h)

  none-open :
      (r : Recipient) (rs : List Recipient)
      → count_if (open_of id) (r ∷ rs) ≡ 0
      → (open_of id r ≡ false) × (count_if (open_of id) rs ≡ 0)
  none-open r rs h = ground (arith, h)

  claimed-others :
      (n : ℕ) (rs : List Recipient)
      → count_if (open_of id) rs ≡ 0
      → All
          (λ (r : Recipient). (r.campaign_id == id) ≡ false)
          (claimed_first n (claim_test locked now db) (claimed_row now config) rs)
  claimed-others n [] none_ = tt
  claimed-others n (r ∷ rs) none_ =
      let (settled, rest) = none-open r rs none_ in
      elim (Bool-cases (claim_test locked now db r && ltb 0 n)) [
        | inl hit ↦ rw hit (other r settled hit, claimed-others (n - 1) rs rest)
        | inr miss ↦ rw miss (claimed-others n rs rest)
      ]
    where
      other :
          (r : Recipient)
          → open_of id r ≡ false
          → (claim_test locked now db r && ltb 0 n) ≡ true
          → (r.campaign_id == id) ≡ false
      other r settled hit =
          let open_ = claim_test-open r (and_true-left (claim_test locked now db r) _ hit) in
          ground (arith, settled, open_)

resumed :
    (tenant id now : ℕ) (db after : CampaignDb)
    → resume tenant id now db ≡ ok after
    → (c : Campaign) × (find id db.campaigns ≡ some c)
      × (c.tenant_id ≡ tenant)
      × (same_status c.status paused ≡ true)
      × (after ≡ resume_row tenant id now c.scheduled_at c.started_at db)
unfolding resume
resumed tenant id now db after e =
    let (c, p, e1) = >>=-eq-ok (find_by_id tenant id db) _ e in
    let (stopped, e2) = guard->>-eq-ok (same_status c.status paused) _ _ e1 in
    let (found, own) = of_tenant-eq-some tenant _ (or_fail-eq-ok _ _ p) in
    (c, found, own, stopped, sym (ok-injective e2))

-- The campaign runs, and a claim hands out none of its recipients.
abbrev pub IsStuck : ℕ → (ℕ → Bool) → ℕ → ℕ → ℕ → CampaignDb → Type 0
IsStuck id locked later config batch db =
    ((d : Campaign) × (find id db.campaigns ≡ some d) × (d.status ≡ running))
    × All (λ (r : Recipient). (r.campaign_id == id) ≡ false)
        (claim_recipients locked later config batch db).1

resumed-running :
    (now : ℕ) (s t : Option ℕ) (x : Campaign)
    → is_future now s ≡ false
    → (resumed_row now s t x).status ≡ running
resumed-running now s t x h = ground (arith, h)

open-zero :
    (id : ℕ) (db : CampaignDb) → no_open id db ≡ true → count_if (open_of id) db.recipients ≡ 0
open-zero id db h = ground (arith, h, count-open id db.recipients)

resume_row-IsStuck :
    (tenant id now : ℕ) (db : CampaignDb) (x : Campaign) (locked : ℕ → Bool)
    (later config batch : ℕ)
    → find id db.campaigns ≡ some x
    → x.tenant_id ≡ tenant
    → same_status x.status paused ≡ true
    → is_future now x.scheduled_at ≡ false
    → no_open id db ≡ true
    → IsStuck id locked later config batch (resume_row tenant id now x.scheduled_at x.started_at db)
unfolding resume_row claim_recipients
resume_row-IsStuck tenant id now db x locked later config batch found own stopped past none_ =
    let key : x.id ≡ id = find-key id db.campaigns found in
    (
      (
        resumed_row now x.scheduled_at x.started_at x,
        ground (
          arith,
          find-update_where id
              (λ (c : Campaign).
                c.id == id && (c.tenant_id == tenant && same_status c.status paused))
              (resumed_row now x.scheduled_at x.started_at) db.campaigns
              (resumed-id now x.scheduled_at x.started_at),
          found,
          key,
          own,
          stopped,
        ),
        resumed-running now x.scheduled_at x.started_at x past,
      ),
      claimed-others locked later config id
          (resume_row tenant id now x.scheduled_at x.started_at db) batch db.recipients
          (open-zero id db none_),
    )

-- A campaign none of whose recipients is PENDING or PROCESSING, and that is resumed when its
-- scheduled time, if any, is past, is RUNNING, and a claim of the processor on these tables hands
-- out none of its recipients.
pub resume-IsStuck :
    (tenant id now : ℕ) (db after : CampaignDb) (c : Campaign) (locked : ℕ → Bool)
    (later config batch : ℕ)
    → find id db.campaigns ≡ some c
    → is_future now c.scheduled_at ≡ false
    → no_open id db ≡ true
    → resume tenant id now db ≡ ok after
    → IsStuck id locked later config batch after
resume-IsStuck tenant id now db after c locked later config batch there past none_ e =
    let (x, found, own, stopped, done) = resumed tenant id now db after e in
    let same : x ≡ c = some-injective _ _ (sym found ∙ there) in
    let past_ : is_future now x.scheduled_at ≡ false =
      ap (λ (y : Campaign). is_future now y.scheduled_at) same ∙ past in
    subst (IsStuck id locked later config batch) (sym done) (
      resume_row-IsStuck tenant id now db x locked later config batch found own stopped past_ none_)
