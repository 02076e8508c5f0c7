-- ===== src/Allocator/Quotas.antt =====
-- Quotas and claims of a heap object of sdk/core/allocator/main.cc: what a capability's quota pays for.
use cheriot_rtos.Base.{
  ℕ, ◌+◌, ◌-◌, ◌^◌, ◌≤◌, ◌<◌, ◌≡◌, ◌≢◌, refl, sym, ap, ◌∙◌, Bool, Bool-cases, inl, inr, true, false,
  ◌&&◌, Option, Option-cases, none, some, List, [], ◌∷◌, ◌==◌, ltb, if◌then◌else◌, add32, sub32,
  arith, ==→eq, ltb→ge,
}
use cheriot_rtos.Allocator.{
  Claim, Chunk, Capability, reference_add, reference_remove, claim_find, claim_update, claim_unlink,
  claim_create, claim_new, claim_add, claim_release, claim_drop, is_empty, owner_free, claim_free,
  heap_free_chunk,
}

-- What the claims of `id` cost its quota, for a chunk of `size`.
abbrev pub claims_charge : ℕ → ℕ → List Claim → ℕ
claims_charge id size [] = 0
claims_charge id size (c ∷ cs) =
    (if c.allocator_identifier == id then size + c.block else 0) + claims_charge id size cs

-- What a chunk costs the quota of `id`, as its owner and by its claims.
abbrev pub charge : ℕ → Chunk → ℕ
charge id chunk =
    (if chunk.owner_id == id then chunk.size else 0) + claims_charge id chunk.size chunk.claims

module _ (id size : ℕ) where
  charge-update :
      (owner : ℕ) (f : Claim → Claim) (cs : List Claim)
      → ((c : Claim)
          → ((f c).allocator_identifier ≡ c.allocator_identifier) × ((f c).block ≡ c.block))
      → claims_charge id size (claim_update owner f cs) ≡ claims_charge id size cs
  unfolding claim_update
  charge-update owner f [] same = refl
  charge-update owner f (c ∷ cs) same = elim (Bool-cases (c.allocator_identifier == owner)) [
    | inl hit ↦ rw (hit, (same c).0, (same c).1) refl
    | inr miss ↦ rw (miss, charge-update owner f cs same) refl
  ]

  charge-unlink :
      (cs : List Claim) (c : Claim)
      → claim_find id cs ≡ some c
      → claims_charge id size (claim_unlink id cs) + (size + c.block) ≡ claims_charge id size cs
  unfolding claim_find claim_unlink
  charge-unlink [] c found = ground (arith, found)
  charge-unlink (d ∷ ds) c found = elim (Bool-cases (d.allocator_identifier == id)) [
    | inl hit ↦ ground (arith, hit, found)
    | inr miss ↦ ground (
      arith,
      miss,
      found,
      charge-unlink ds c (sym (ap (λ b. if b then some d else claim_find id ds) miss) ∙ found),
    )
  ]

  charge-unlink_other :
      (owner : ℕ) (cs : List Claim)
      → owner ≢ id
      → claims_charge id size (claim_unlink owner cs) ≡ claims_charge id size cs
  unfolding claim_unlink
  charge-unlink_other owner [] n = refl
  charge-unlink_other owner (d ∷ ds) n = elim (Bool-cases (d.allocator_identifier == owner)) [
    | inl hit ↦ ground (arith, hit, ==→eq d.allocator_identifier owner hit)
    | inr miss ↦ ground (arith, miss, charge-unlink_other owner ds n)
  ]

-- A change of a chunk by `cap` leaves the sum of its quota and what it pays for, and what others pay for.
pub record IsFair (cap : Capability) (chunk : Chunk) (cap' : Capability) (chunk' : Chunk)
    : Type 0 where
  pub identifier : cap'.identifier ≡ cap.identifier
  pub balance : cap'.quota + charge cap.identifier chunk' ≡ cap.quota + charge cap.identifier chunk
  pub others : (id : ℕ) → cap.identifier ≢ id → 0 ≢ id → charge id chunk' ≡ charge id chunk

counted_once :
    (c : Claim)
    → ((reference_add c).allocator_identifier ≡ c.allocator_identifier)
      × ((reference_add c).block ≡ c.block)
counted_once c = ground arith

counted_less :
    (c : Claim)
    → ((reference_remove c).allocator_identifier ≡ c.allocator_identifier)
      × ((reference_remove c).block ≡ c.block)
counted_less c = ground arith

module _ (cap : Capability) (chunk : Chunk) (some_id : 0 ≢ cap.identifier)
    (small : cap.quota + charge cap.identifier chunk < 2 ^ 32) where
  same_claims-IsFair :
      (f : Claim → Claim)
      → ((c : Claim)
          → ((f c).allocator_identifier ≡ c.allocator_identifier) × ((f c).block ≡ c.block))
      → IsFair cap chunk cap (record chunk { claims = claim_update cap.identifier f chunk.claims })
  same_claims-IsFair f same = record {
    identifier = refl;
    balance =
        ap (λ n. cap.quota + ((if chunk.owner_id == cap.identifier then chunk.size else 0) + n))
          (charge-update cap.identifier chunk.size cap.identifier f chunk.claims same);
    others = λ id n k.
        ap (λ m. (if chunk.owner_id == id then chunk.size else 0) + m)
          (charge-update id chunk.size cap.identifier f chunk.claims same);
  }

  unchanged-IsFair : IsFair cap chunk cap chunk
  unchanged-IsFair = record { identifier = refl; balance = refl; others = λ id n k. refl }

  -- A claim that the owner gets in place of its ownership.
  owned_create-IsFair :
      (block : ℕ)
      → (chunk.owner_id == cap.identifier) ≡ true
      → block ≤ cap.quota
      → let o = claim_create cap chunk true (some block) in IsFair cap chunk o.capability o.chunk
  unfolding claim_create
  owned_create-IsFair block own paid = record {
    identifier = refl;
    balance = ground (arith, some_id, own, paid, small);
    others = λ id n k. ground (arith, n, k, ==→eq chunk.owner_id cap.identifier own);
  }

  -- A claim of another capability, which has paid for the chunk.
  other_create-IsFair :
      (space : Option ℕ)
      → (chunk.owner_id == cap.identifier) ≡ false
      → chunk.size ≤ cap.quota
      → ((block : ℕ) → space ≡ some block → block ≤ cap.quota - chunk.size)
      → let left : Capability = record cap { quota = sub32 cap.quota chunk.size } in
        let o = claim_create left chunk false space in IsFair cap chunk o.capability o.chunk
  unfolding claim_create
  other_create-IsFair none other rich paid = record {
    identifier = refl;
    balance = ground (arith, rich, small);
    others = λ id n k. refl;
  }
  other_create-IsFair (some block) other rich paid = record {
    identifier = refl;
    balance = ground (arith, other, rich, small, paid block refl);
    others = λ id n k. ground (arith, n, k);
  }

  claim_new-IsFair :
      (space : ℕ → Option ℕ)
      → ((quota block : ℕ) → space quota ≡ some block → block ≤ quota)
      → let o = claim_new space cap chunk in IsFair cap chunk o.capability o.chunk
  unfolding claim_new
  claim_new-IsFair space paid = elim (Bool-cases (chunk.owner_id == cap.identifier)) [
    | inl own ↦ elim (Option-cases (space cap.quota)) [
      | inl full ↦ rw (own, full, claim_create) unchanged-IsFair
      | inr (block, got) ↦ rw (own, got) (owned_create-IsFair block own (paid cap.quota block got))
    ]
    | inr other ↦ elim (Bool-cases (ltb cap.quota chunk.size)) [
      | inl poor ↦ rw (other, poor) unchanged-IsFair
      | inr rich ↦
          let le = ltb→ge cap.quota chunk.size rich in
          let left : sub32 cap.quota chunk.size ≡ cap.quota - chunk.size =
            omega (arith, le, small) in
          rw (other, rich)
            (other_create-IsFair (space (sub32 cap.quota chunk.size)) other le
              (λ block got. omega (arith, left, paid (sub32 cap.quota chunk.size) block got)))
    ]
  ]

  pub claim_add-IsFair :
      (space : ℕ → Option ℕ)
      → ((quota block : ℕ) → space quota ≡ some block → block ≤ quota)
      → let o = claim_add space cap chunk in IsFair cap chunk o.capability o.chunk
  unfolding claim_add
  claim_add-IsFair space paid = elim (Option-cases (claim_find cap.identifier chunk.claims)) [
    | inl absent ↦ rw (absent, claim_add) (claim_new-IsFair space paid)
    | inr (c, found) ↦ rw (found, claim_add) (same_claims-IsFair reference_add counted_once)
  ]

  -- The last reference goes, and with it the claim.
  unlinked-IsFair :
      (c : Claim)
      → claim_find cap.identifier chunk.claims ≡ some c
      → IsFair cap chunk
          (record cap { quota = add32 (add32 cap.quota chunk.size) c.block })
          (record chunk { claims = claim_unlink cap.identifier chunk.claims })
  unlinked-IsFair c found =
      let gone = charge-unlink cap.identifier chunk.size chunk.claims c found in
      record {
        identifier = refl;
        balance = ground (arith, gone, small);
        others = λ id n k.
            ap (λ m. (if chunk.owner_id == id then chunk.size else 0) + m)
              (charge-unlink_other id chunk.size cap.identifier chunk.claims n);
      }

  claim_release-IsFair :
      (free_all : Bool) (c : Claim)
      → claim_find cap.identifier chunk.claims ≡ some c
      → let o = claim_release cap chunk free_all c in IsFair cap chunk o.capability o.chunk
  unfolding claim_release
  claim_release-IsFair true c found = unlinked-IsFair c found
  claim_release-IsFair false c found =
      elim (Bool-cases ((reference_remove c).reference_count == 0)) [
        | inl last ↦ rw last (unlinked-IsFair c found)
        | inr more ↦ rw more (same_claims-IsFair reference_remove counted_less)
      ]

  claim_drop-IsFair :
      (really_drop free_all : Bool)
      → let o = claim_drop cap chunk really_drop free_all in IsFair cap chunk o.capability o.chunk
  unfolding claim_drop
  claim_drop-IsFair really_drop free_all =
      elim (Option-cases (claim_find cap.identifier chunk.claims)) [
        | inl absent ↦ rw (absent, claim_drop) unchanged-IsFair
        | inr (c, found) ↦ elim (Bool-cases really_drop) [
          | inl drop ↦ rw (found, drop, claim_drop) (claim_release-IsFair free_all c found)
          | inr query ↦ rw (found, query, claim_drop) unchanged-IsFair
        ]
      ]

  owner_free-IsFair :
      (chunk.owner_id == cap.identifier) ≡ true
      → let o = owner_free 0 cap chunk in IsFair cap chunk o.capability o.chunk
  unfolding owner_free
  owner_free-IsFair own = elim (Bool-cases (is_empty chunk.claims)) [
    | inl last ↦ rw last refunded
    | inr more ↦ rw more refunded
  ]
    where
      refunded :
          IsFair cap chunk
            (record cap { quota = add32 cap.quota chunk.size })
            (record chunk { owner_id = 0 })
      refunded = record {
        identifier = refl;
        balance = ground (arith, own, some_id, small);
        others = λ id n k. ground (arith, n, k, ==→eq chunk.owner_id cap.identifier own);
      }

  pub heap_free_chunk-IsFair :
      (is_precise really_free free_all : Bool)
      → let o = heap_free_chunk 0 cap chunk is_precise really_free free_all in
        IsFair cap chunk o.capability o.chunk
  unfolding heap_free_chunk claim_free
  heap_free_chunk-IsFair is_precise really_free free_all =
      elim (Bool-cases (is_precise && (chunk.owner_id == cap.identifier))) [
        | inl own ↦ elim (Bool-cases really_free) [
          | inl free ↦ rw (own, free) (owner_free-IsFair (and-right is_precise _ own))
          | inr query ↦ rw (own, query) unchanged-IsFair
        ]
        | inr other ↦ rw other (claim_drop-IsFair really_free free_all)
      ]
    where
      and-right : (a b : Bool) → (a && b) ≡ true → b ≡ true
      and-right true b h = h
      and-right false b h = ground (arith, h)
