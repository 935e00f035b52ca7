-- ===== src/Policy/Tests.antt =====
-- Lookups and insertions in a new cache of four blocks, one of them in the new section and two in the
-- old section.
use os_ex.Common.{ℕ, ◌≡◌, refl, none, some, List, [], ◌∷◌, arith, done}
use os_ex.Common.Int.{ℤ, pos, negsuc}
use os_ex.Block.{BlockId, Buffer}
use os_ex.Manager.{
  CacheManager, construct_sections, push_empty_slots, retrieve_buffer, insert_block,
}
use os_ex.Manager.Construct.{construct_sections-IsValid}
use os_ex.Manager.Insertion.{block_id}
use os_ex.Read.Cached.{Backed}
use os_ex.Paths.Segments.{render}
use os_ex.Paths.Tests.{any_data, cache, chain, cache-IsValid}
use os_ex.Policy.{Entry, take_out, without_last, drop_least}
use os_ex.Policy.View.{view}
use os_ex.Policy.Lookup.{Implements, retrieve_buffer-lookup}
use os_ex.Policy.Admit.{insert_block-admit}
use os_ex.Policy.Trace.{Access, accesses, accesses-policy_accesses}

-- Block `n` has the byte `n`.
abbrev byte_of : ℤ → Buffer
byte_of (pos n) = n ∷ []
byte_of (negsuc n) = []

abbrev content : BlockId → Buffer
content k = byte_of k.block_number

abbrev fresh : CacheManager
fresh = construct_sections (pos 4) (pos 1) (pos 2)

abbrev slot : Entry
slot = record { key = block_id (negsuc 0) (negsuc 0); count = 1; content = none; path = [] }

abbrev slots : List Entry
slots = slot ∷ slot ∷ slot ∷ slot ∷ []

fresh-Implements : Implements (Backed content) 1 1 2 fresh slots
unfolding construct_sections push_empty_slots
fresh-Implements = (
  (construct_sections-IsValid (Backed content) 1 1 2 (omega arith) (omega arith)
      (λ real. ground arith)).0,
  refl,
)

abbrev block : ℕ → BlockId
block n = block_id (pos 7) (pos n)

abbrev block_entry : ℕ → ℕ → Entry
block_entry n count = record {
  key = block n;
  count = count;
  content = some (n ∷ []);
  path = b'a' ∷ [];
}

-- Block 1, block 2, and block 1 again, which is in the middle section by then.
abbrev reads : List Access
reads = (block 1, b'a' ∷ []) ∷ (block 2, b'a' ∷ []) ∷ (block 1, b'a' ∷ []) ∷ []

accesses-policy_accesses_example :
    (m : CacheManager) × (accesses content reads fresh
      ≡ done ((1 ∷ []) ∷ (2 ∷ []) ∷ (1 ∷ []) ∷ [], m))
    × Implements (Backed content) 1 1 2 m (block_entry 1 2 ∷ block_entry 2 1 ∷ slot ∷ slot ∷ [])
unfolding take_out without_last drop_least
accesses-policy_accesses_example =
    accesses-policy_accesses content 1 1 2 reads fresh slots (omega arith) (omega arith)
      fresh-Implements
      (
        refl,
        ((omega arith, (omega arith, (omega arith, (omega arith, tt)))), λ e. refl),
        (
          refl,
          ((omega arith, (omega arith, (omega arith, (omega arith, tt)))), λ e. refl),
          (refl, ((omega arith, (omega arith, (omega arith, (omega arith, tt)))), λ e. refl), tt),
        ),
      )

-- Block 1 is the first of the old section of the manager.
retrieve_buffer-lookup_example :
    (m : CacheManager) × (retrieve_buffer (block 1) (cache (b'a' ∷ [])) ≡ done (some (1 ∷ []), m))
    × Implements any_data 1 0 2 m (
        record {
          key = block 1;
          count = 2;
          content = some (1 ∷ []);
          path = render ((b'a' ∷ b'b' ∷ []) ∷ []);
        }
        ∷ record { key = block 0; count = 1; content = some (0 ∷ []); path = b'a' ∷ [] }
        ∷ slot
        ∷ [])
unfolding take_out
retrieve_buffer-lookup_example =
    retrieve_buffer-lookup any_data 1 0 2 (block 1) (cache (b'a' ∷ [])) (view (chain (b'a' ∷ [])))
      (cache-IsValid (b'a' ∷ []), refl) (omega arith)
      (omega arith, (omega arith, (omega arith, tt)))

insert_block-admit_example :
    (m : CacheManager) × (insert_block (pos 7) (pos 1) (1 ∷ []) (b'a' ∷ []) fresh ≡ done m)
    × Implements (Backed content) 1 1 2 m (block_entry 1 1 ∷ slot ∷ slot ∷ slot ∷ [])
unfolding without_last drop_least construct_sections
insert_block-admit_example =
    insert_block-admit (Backed content) 1 1 2 (pos 7) (pos 1) (1 ∷ []) (b'a' ∷ []) fresh slots
      fresh-Implements (omega arith) refl (λ real. refl) refl refl
