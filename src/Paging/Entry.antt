-- ===== src/Paging/Entry.antt =====
-- The address and the flags of a page table entry do not disturb each other.
use testos.Base.{
  ℕ, ◌-◌, ◌*◌, ◌%◌, ◌^◌, ◌<◌, ◌≡◌, ◌≢◌, sym, ap, ◌∙◌, arith, bit_and, bit_or, ◌==◌, true, u64_end,
  ok, panic, Bool, ◌⊎◌, inl, inr, ◌≤◌, le_or_lt,
}
use testos.Base.Bits.{bit_and-field, bit_and-low, bit_or_step}
use testos.Base.Masks.{
  bit_and_assoc, bit_and-bit_or, bit_and-zero_right, bit_or-zero_left, bit_or-zero_right,
}
use testos.Addr.Align.{is_aligned_to-ok}
use testos.Paging.Flags
use testos.Paging.Flags.{PageTableFlags, contains}
use testos.Paging.{
  PageTableEntry, entry, zero_entry, page_table_entry_addr_bits, set_addr, get_addr, set_flags,
  get_flags,
}

-- The valid flag sets: those without a bit that is no flag.
abbrev pub IsFlags : PageTableFlags → Type 0
IsFlags f = bit_and f Flags.all ≡ f

-- No flag is a bit of the address.
flags-outside_addr : (x : ℕ) → bit_and (bit_and x Flags.all) page_table_entry_addr_bits ≡ 0
flags-outside_addr x = bit_and_assoc x Flags.all page_table_entry_addr_bits ∙ bit_and-zero_right x

addr-outside_flags : (x : ℕ) → bit_and (bit_and x ((2 ^ 41 - 1) * 2 ^ 12)) Flags.all ≡ 0
addr-outside_flags x = bit_and_assoc x ((2 ^ 41 - 1) * 2 ^ 12) Flags.all ∙ bit_and-zero_right x

known_bits : (x : ℕ) → IsFlags (bit_and x Flags.all)
known_bits x = bit_and_assoc x Flags.all Flags.all

pub get_flags-ok : (e : PageTableEntry) → get_flags e ≡ ok (bit_and e.raw Flags.all)
unfolding get_flags
get_flags-ok e = ground (arith, known_bits e.raw)

-- Setting flags leaves the address.
pub get_addr-set_flags :
    (e : PageTableEntry) (f : PageTableFlags) → IsFlags f → get_addr (set_flags e f) ≡ get_addr e
unfolding get_addr set_flags
get_addr-set_flags e f h =
    bit_and-bit_or e.raw f page_table_entry_addr_bits
    ∙ ap (λ t. bit_or (bit_and e.raw page_table_entry_addr_bits) t)
        (ap (λ t. bit_and t page_table_entry_addr_bits) (sym h) ∙ flags-outside_addr f)
    ∙ bit_or-zero_right (bit_and e.raw page_table_entry_addr_bits)

-- Bit 0, which says that an entry is in use.
abbrev pub is_present : PageTableEntry → Bool
is_present e = e.raw % 2 == 1

pub contains-present :
    (e : PageTableEntry) → contains (bit_and e.raw Flags.all) Flags.present ≡ is_present e
contains-present e = ap (λ t. t == 1) (bit_and_assoc e.raw Flags.all 1 ∙ bit_and-low 1 e.raw)

pub is_present-set_flags :
    (e : PageTableEntry) (f : PageTableFlags)
    → is_present e ≡ true
    → is_present (set_flags e f) ≡ true
unfolding set_flags
is_present-set_flags e f h = ground (arith, bit_or_step e.raw f)

pub set_present :
    (e : PageTableEntry) (f : PageTableFlags)
    → is_present (set_flags e (bit_or f Flags.present)) ≡ true
unfolding set_flags
set_present e f = ground (arith, bit_or_step e.raw (bit_or f 1), bit_or_step f 1)

pub IsFlags-set :
    (old mask f : ℕ) → IsFlags mask → IsFlags f → IsFlags (bit_or (bit_and old mask) f)
IsFlags-set old mask f hm hf =
    bit_and-bit_or (bit_and old mask) f Flags.all
    ∙ ap (λ t. bit_or t (bit_and f Flags.all))
        (bit_and_assoc old mask Flags.all ∙ ap (bit_and old) hm)
    ∙ ap (λ t. bit_or (bit_and old mask) t) hf

pub IsFlags-present : (f : ℕ) → IsFlags f → IsFlags (bit_or f Flags.present)
IsFlags-present f hf =
    bit_and-bit_or f Flags.present Flags.all ∙ ap (λ t. bit_or t Flags.present) hf

low_bits : (a : ℕ) → a % 4096 ≡ 0 → a < 2 ^ 53 → bit_and a ((2 ^ 41 - 1) * 2 ^ 12) ≡ a
low_bits a al h = omega (arith, bit_and-field 12 41 a)

no_flags : (a : ℕ) → a % 4096 ≡ 0 → a < 2 ^ 53 → bit_and a Flags.all ≡ 0
no_flags a al h = ap (λ t. bit_and t Flags.all) (sym (low_bits a al h)) ∙ addr-outside_flags a

pub set_addr-ok :
    (e : PageTableEntry) (a : ℕ)
    → a % 4096 ≡ 0
    → a < 2 ^ 53
    → set_addr e a ≡ ok (entry (bit_or e.raw a))
unfolding set_addr
set_addr-ok e a al h = rw (is_aligned_to-ok 12 a (omega arith) (omega arith)) (ground arith)

set_addr-panic :
    (e : PageTableEntry) (a : ℕ) → a < 2 ^ 64 → (a % 4096 ≢ 0) ⊎ (2 ^ 53 ≤ a) → set_addr e a ≡ panic
unfolding set_addr
set_addr-panic e a fits h = rw (is_aligned_to-ok 12 a (omega arith) fits) (ground arith)

pub addr_of_raw : (a : ℕ) → a % 4096 ≡ 0 → get_addr (entry a) ≡ a % 2 ^ 48
unfolding get_addr
addr_of_raw a al = omega (arith, bit_and-field 12 36 a)

pub flags_of_raw :
    (a : ℕ) (f : PageTableFlags)
    → a % 4096 ≡ 0
    → a < 2 ^ 53
    → IsFlags f
    → get_flags (set_flags (entry a) f) ≡ ok f
flags_of_raw a f al h hf = get_flags-ok (set_flags (entry a) f) ∙ ap ok masked
  where
    masked : bit_and (set_flags (entry a) f).raw Flags.all ≡ f
    masked =
        unfold set_flags in
        bit_and-bit_or a f Flags.all
        ∙ ap (λ t. bit_or t (bit_and f Flags.all)) (no_flags a al h)
        ∙ bit_or-zero_left (bit_and f Flags.all)
        ∙ hf

-- An entry that gets an address and flags gives back these flags, and the low 48 bits of the
-- address, if the address is a multiple of 4096 below 2^53; for any other address the code panics.
pub set_addr_lem :
    (a : ℕ) (f : PageTableFlags)
    → a < u64_end
    → IsFlags f
    → ((a % 4096 ≡ 0)
        × (a < 2 ^ 53)
        × ((e : PageTableEntry) × (set_addr zero_entry a ≡ ok e)
            × (get_addr (set_flags e f) ≡ a % 2 ^ 48)
            × (get_flags (set_flags e f) ≡ ok f)))
      ⊎ ((set_addr zero_entry a ≡ panic) × ((a % 4096 ≢ 0) ⊎ (2 ^ 53 ≤ a)))
set_addr_lem a f fits hf = elim (le_or_lt (2 ^ 53) a) [
  | inl big ↦ inr (set_addr-panic zero_entry a fits (inr big), inr big)
  | inr small ↦ elim (le_or_lt 1 (a % 4096)) [
    | inl odd ↦
        let off : a % 4096 ≢ 0 = λ e. omega arith in
        inr (set_addr-panic zero_entry a fits (inl off), inl off)
    | inr even ↦
        let al : a % 4096 ≡ 0 = omega arith in
        inl (
          al,
          small,
          (
            entry a,
            set_addr-ok zero_entry a al small ∙ ap (λ t. ok (entry t)) (bit_or-zero_left a),
            get_addr-set_flags (entry a) f hf ∙ addr_of_raw a al,
            flags_of_raw a f al small hf,
          ),
        )
  ]
]
