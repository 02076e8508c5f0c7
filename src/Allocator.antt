-- ===== src/Allocator.antt =====
-- Ownership, claims and quotas of a heap object: sdk/core/allocator/main.cc. The chunk allocator below it,
-- sdk/core/allocator/alloc.h, is seen through two results: `space` tells, for a quota, the size of the
-- chunk that it gives for a claim, if any, and `freed` is what `mspace_free` returns. The chain of claims
-- of a chunk is a list in the order of its iteration.
pub mod Quotas
pub mod Conserve
use cheriot_rtos.Base.{
  ℕ, ◌+◌, ◌-◌, ◌^◌, Bool, true, false, ◌&&◌, not, Option, none, some, List, [], ◌∷◌, ◌==◌, ltb,
  if◌then◌else◌, add32, sub32, update,
}

-- `Claim`; `block` is the size of the chunk in which it stands.
pub record Claim : Type 0 where
  pub allocator_identifier : ℕ
  pub reference_count : ℕ
  pub block : ℕ

-- The fields of `MChunkHeader` that ownership is about.
pub record Chunk : Type 0 where
  pub size : ℕ
  pub owner_id : ℕ
  pub claims : List Claim

-- `PrivateAllocatorCapabilityState`.
pub record Capability : Type 0 where
  pub identifier : ℕ
  pub quota : ℕ

-- `reference_add` and `reference_remove`, which pin a count that is at its maximum.
abbrev pub reference_add : Claim → Claim
reference_add c =
    if c.reference_count == 2 ^ 32 - 1
    then c
    else record c { reference_count = c.reference_count + 1 }

abbrev pub reference_remove : Claim → Claim
reference_remove c =
    if c.reference_count == 2 ^ 32 - 1
    then c
    else record c { reference_count = sub32 c.reference_count 1 }

-- `claim_find`.
unfoldable pub claim_find : ℕ → List Claim → Option Claim
claim_find owner [] = none
claim_find owner (c ∷ cs) =
    let rest = claim_find owner cs in if c.allocator_identifier == owner then some c else rest

-- The list with the claim that `claim_find` finds changed, or taken off by `next = claim->encoded_next()`.
unfoldable pub claim_update : ℕ → (Claim → Claim) → List Claim → List Claim
claim_update owner f [] = []
claim_update owner f (c ∷ cs) =
    let rest = claim_update owner f cs in
    if c.allocator_identifier == owner then f c ∷ cs else c ∷ rest

unfoldable pub claim_unlink : ℕ → List Claim → List Claim
claim_unlink owner [] = []
claim_unlink owner (c ∷ cs) =
    let rest = claim_unlink owner cs in if c.allocator_identifier == owner then cs else c ∷ rest

-- An operation's result: the quota, the chunk, and what it returns.
pub record Outcome (R : Type 0) : Type 0 where
  pub capability : Capability
  pub chunk : Chunk
  pub ret : R

-- The end of `claim_add`: `owned` tells whether the caller owns the chunk, `cap` has the quota that is
-- left, and `claim` is what `Claim::create` gets.
unfoldable pub claim_create : Capability → Chunk → Bool → Option ℕ → Outcome Bool
claim_create cap chunk owned none = record {
  capability = if owned then cap else record cap { quota = add32 cap.quota chunk.size };
  chunk = chunk;
  ret = false;
}
claim_create cap chunk owned (some block) =
    let fresh : Claim = record {
      allocator_identifier = cap.identifier;
      reference_count = 1;
      block = block;
    } in
    record {
      capability = record cap { quota = sub32 cap.quota block };
      chunk = record chunk {
        owner_id = if owned then 0 else chunk.owner_id;
        claims = (if owned then reference_add fresh else fresh) ∷ chunk.claims;
      };
      ret = true;
    }

unfoldable pub claim_new : (ℕ → Option ℕ) → Capability → Chunk → Outcome Bool
unfolding claim_create
claim_new space cap chunk =
    if chunk.owner_id == cap.identifier
    then claim_create cap chunk true (space cap.quota)
    else if ltb cap.quota chunk.size
    then record { capability = cap; chunk = chunk; ret = false }
    else (let left : Capability = record cap { quota = sub32 cap.quota chunk.size } in
        claim_create left chunk false (space left.quota))

-- `claim_add`.
unfoldable pub claim_add : (ℕ → Option ℕ) → Capability → Chunk → Outcome Bool
unfolding claim_find claim_update claim_new
claim_add space cap chunk = elim (claim_find cap.identifier chunk.claims) [
  | some c ↦ record {
    capability = cap;
    chunk = record chunk { claims = claim_update cap.identifier reference_add chunk.claims };
    ret = true;
  }
  | none ↦ claim_new space cap chunk
]

-- The rest of `claim_drop`, for the claim that is found.
unfoldable pub claim_release : Capability → Chunk → Bool → Claim → Outcome Bool
unfolding claim_update claim_unlink
claim_release cap chunk free_all c =
    let left = reference_remove c in
    if free_all
    then record {
      capability = record cap { quota = add32 (add32 cap.quota chunk.size) c.block };
      chunk = record chunk { claims = claim_unlink cap.identifier chunk.claims };
      ret = true;
    }
    else if left.reference_count == 0
    then record {
      capability = record cap { quota = add32 (add32 cap.quota chunk.size) c.block };
      chunk = record chunk { claims = claim_unlink cap.identifier chunk.claims };
      ret = true;
    }
    else record {
      capability = cap;
      chunk = record chunk { claims = claim_update cap.identifier reference_remove chunk.claims };
      ret = true;
    }

-- `claim_drop`.
unfoldable pub claim_drop : Capability → Chunk → Bool → Bool → Outcome Bool
unfolding claim_find claim_release
claim_drop cap chunk really_drop free_all = elim (claim_find cap.identifier chunk.claims) [
  | none ↦ record { capability = cap; chunk = chunk; ret = false }
  | some c ↦
      if really_drop
      then claim_release cap chunk free_all c
      else record { capability = cap; chunk = chunk; ret = true }
]

-- What `heap_free_chunk` does: the chunk is still there, it has been given to `mspace_free`, which returned
-- a number, or the caller may not free it.
pub data Freed : Type 0 where
  kept not_permitted : Freed
  released : ℕ → Freed

abbrev pub is_empty : List Claim → Bool
is_empty [] = true
is_empty (c ∷ cs) = false

-- The part for the owner of the chunk.
unfoldable pub owner_free : ℕ → Capability → Chunk → Outcome Freed
owner_free freed cap chunk =
    let disowned : Chunk = record chunk { owner_id = 0 } in
    let refunded : Capability = record cap { quota = add32 cap.quota chunk.size } in
    if is_empty chunk.claims
    then record {
      capability = if freed == 0 then refunded else cap;
      chunk = disowned;
      ret = released freed;
    }
    else record { capability = refunded; chunk = disowned; ret = kept }

-- The part that drops a claim, for the result of `claim_drop`.
unfoldable pub claim_free : ℕ → Outcome Bool → Outcome Freed
claim_free freed o = record {
  capability = o.capability;
  chunk = o.chunk;
  ret =
      if o.ret
      then if is_empty o.chunk.claims && (o.chunk.owner_id == 0) then released freed else kept
      else not_permitted;
}

-- `heap_free_chunk`.
unfoldable pub heap_free_chunk : ℕ → Capability → Chunk → Bool → Bool → Bool → Outcome Freed
unfolding owner_free claim_free claim_drop
heap_free_chunk freed cap chunk is_precise really_free free_all =
    if is_precise && (chunk.owner_id == cap.identifier)
    then if really_free
      then owner_free freed cap chunk
      else record { capability = cap; chunk = chunk; ret = kept }
    else claim_free freed (claim_drop cap chunk really_free free_all)

-- One object of the heap and the quotas of all allocator capabilities, by their identifiers.
pub record Heap : Type 0 where
  pub quotas : ℕ → ℕ
  pub chunk : Chunk
  pub live : Bool

abbrev pub capability_of : ℕ → Heap → Capability
capability_of id h = record { identifier = id; quota = h.quotas id }

-- `heap_claim` of a capability, and `heap_free_internal`, which for an object that is gone find no chunk.
-- `mspace_free` succeeds on a chunk that is in use.
unfoldable pub heap_claim : (ℕ → Option ℕ) → ℕ → Heap → Heap
unfolding claim_add
heap_claim space id h =
    let o = claim_add space (capability_of id h) h.chunk in
    if h.live
    then record h { quotas = update h.quotas id o.capability.quota; chunk = o.chunk }
    else h

abbrev pub stays : Freed → Bool
stays (released r) = false
stays kept = true
stays not_permitted = true

unfoldable pub heap_free : Bool → Bool → Bool → ℕ → Heap → Heap
unfolding heap_free_chunk
heap_free is_precise really_free free_all id h =
    let o = heap_free_chunk 0 (capability_of id h) h.chunk is_precise really_free free_all in
    if h.live
    then record {
      quotas = update h.quotas id o.capability.quota;
      chunk = o.chunk;
      live = stays o.ret;
    }
    else h

pub data HeapOp : Type 0 where
  claims : (ℕ → Option ℕ) → ℕ → HeapOp
  frees : Bool → Bool → Bool → ℕ → HeapOp

abbrev pub heap_step : HeapOp → Heap → Heap
heap_step (claims space id) h = heap_claim space id h
heap_step (frees is_precise really_free free_all id) h =
    heap_free is_precise really_free free_all id h

abbrev pub heap_run : List HeapOp → Heap → Heap
heap_run [] h = h
heap_run (op ∷ ops) h = heap_run ops (heap_step op h)
