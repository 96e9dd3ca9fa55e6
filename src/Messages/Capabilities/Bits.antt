-- ===== src/Messages/Capabilities/Bits.antt =====
-- Setting and testing capabilities: the bitmap is the set of the capabilities that were set.
use tds.Base.{
  ℕ, ◌+◌, ◌-◌, ◌/◌, ◌%◌, ◌^◌, ◌<◌, ◌≡◌, ◌≢◌, refl, ◌∙◌, ap, Bool, true, false, ◌||◌, Option, none,
  some, List, [], ◌∷◌, length, get_or, set, length-set, bit_or, Bytes, IsBytes, All, ◌==◌, ==_iff,
  arith, ltb-false, lt→ltb, leb-false, Bool-cases, inl, inr,
}
use tds.Messages.Capabilities.{
  Capabilities, set_bits, bit_is_set, set_capabilities, is_set, new_capabilities,
}
use tds.Messages.Capabilities.Defaults.{default_req_capabilities}
use tds.Messages.Tokens.{capability_req_token}
use tds.Messages.Capabilities.Table.{
  every, every-true, iff, bit, iff-eq, bit-bit_or, bit_or-lt, get_or-set, get_or-lt, set-IsBytes,
}

-- The byte that holds a capability, counted from the end.
abbrev place : Bytes → ℕ → ℕ
place target c = length target - 1 - c / 8

-- Whether the bitmap has the capability, for one that it has room for.
abbrev has : Bytes → ℕ → Bool
has target c = bit (get_or target (place target c) 0) (c % 8)

abbrev set_bit : Bytes → ℕ → Bytes
set_bit target c =
    set target (place target c) (bit_or (get_or target (place target c) 0) (2 ^ (c % 8)))

abbrev pub contains : List ℕ → ℕ → Bool
contains [] d = false
contains (c ∷ cs) d = c == d || contains cs d

mod_test : (c d : ℕ) → c / 8 ≡ d / 8 → (c % 8 == d % 8) ≡ (c == d)
mod_test c d h = ground arith

other_test : (c d : ℕ) → c / 8 ≢ d / 8 → (c == d) ≡ false
other_test c d h = ground arith

-- Setting one capability sets it and leaves the others.
has-set_bit :
    (target : Bytes) (c d : ℕ)
    → IsBytes target
    → c / 8 < length target
    → d / 8 < length target
    → has (set_bit target c) d ≡ (c == d || has target d)
has-set_bit target c d h hc hd = elim (Bool-cases (place target c == place target d)) [
  | inl e ↦
      let same : place target c ≡ place target d = (==_iff _ _).0 e in
      rw (
        length-set target (place target c)
            (bit_or (get_or target (place target c) 0) (2 ^ (c % 8))),
        get_or-set target (place target c) (place target d)
            (bit_or (get_or target (place target c) 0) (2 ^ (c % 8))) (omega arith),
        e,
        bit-bit_or (get_or target (place target c) 0) (c % 8) (d % 8)
            (get_or-lt target (place target c) h) (omega arith) (omega arith),
        mod_test c d (omega (arith, same)),
        same,
      )
  | inr e ↦ rw (
    length-set target (place target c) (bit_or (get_or target (place target c) 0) (2 ^ (c % 8))),
    get_or-set target (place target c) (place target d)
        (bit_or (get_or target (place target c) 0) (2 ^ (c % 8))) (omega arith),
    e,
    other_test c d (λ k. ground arith),
  )
]

-- The capabilities that a bitmap of `size` bytes has room for.
abbrev pub HasRoom : ℕ → ℕ → Type 0
HasRoom size c = c / 8 < size

or_assoc : (a b c : Bool) → (a || (b || c)) ≡ ((b || a) || c)
or_assoc a b c = ground arith

bit_is_set-has :
    (target : Bytes) (c : ℕ) → HasRoom (length target) c → bit_is_set target c ≡ some (has target c)
unfolding bit_is_set
bit_is_set-has target c h = rw (
  ltb-false (length target) (c / 8 + 1) (omega arith),
  lt→ltb (place target c) (length target) (omega arith),
)

set_bits-cons :
    (target : Bytes) (c : ℕ) (cs : List ℕ)
    → HasRoom (length target) c
    → set_bits target (c ∷ cs) ≡ set_bits (set_bit target c) cs
unfolding set_bits
set_bits-cons target c cs h = rw (
  ltb-false (length target) (c / 8 + 1) (omega arith),
  leb-false (length target) (place target c) (omega arith),
)

set_bits-has :
    (n : ℕ) (target : Bytes) (cs : List ℕ) (d : ℕ)
    → length target ≡ n
    → IsBytes target
    → All (HasRoom n) cs
    → HasRoom n d
    → ((set_bits target cs).1 ≡ none)
      × (has (set_bits target cs).0 d ≡ (contains cs d || has target d))
      × (length (set_bits target cs).0 ≡ n)
set_bits-has n target [] d size h room hd = unfold set_bits in (refl, refl, size)
set_bits-has n target (c ∷ cs) d size h room hd =
    let here : c / 8 < length target = rw size room.0 in
    let rest =
      set_bits-has n (set_bit target c) cs d (length-set target _ _ ∙ size)
        (set-IsBytes target _ _ h (bit_or-lt _ _ (get_or-lt target _ h) (omega arith))) room.1 hd in
    rw (set_bits-cons target c cs here) (
      rest.0,
      rest.1
          ∙ rw (has-set_bit target c d h here (rw size hd))
              (or_assoc (contains cs d) (c == d) (has target d)),
      rest.2,
    )

-- After capabilities that the request bitmap has room for are set, with no error, testing the bitmap
-- for any capability that it has room for gives true exactly for those that were set or that it had.
pub is_set-set_capabilities :
    (caps : Capabilities) (cs : List ℕ) (d : ℕ) (old : Bool)
    → IsBytes caps.req
    → All (HasRoom (length caps.req)) cs
    → HasRoom (length caps.req) d
    → is_set capability_req_token d caps ≡ some old
    → ((set_capabilities capability_req_token cs caps).1 ≡ none)
      × (is_set capability_req_token d (set_capabilities capability_req_token cs caps).0
          ≡ some (contains cs d || old))
unfolding is_set set_capabilities
is_set-set_capabilities caps cs d old h room hd before =
    let r = set_bits-has (length caps.req) caps.req cs d refl h room hd in
    let was : has caps.req d ≡ old = cc (bit_is_set-has caps.req d hd) in
    (r.0, bit_is_set-has _ d (rw r.2 hd) ∙ ap some (r.1 ∙ rw was))

answers : Option Bool → Bool → Bool
answers none b = false
answers (some a) b = iff a b

answers-eq : (o : Option Bool) (b : Bool) → answers o b ≡ true → o ≡ some b
unfolding answers
answers-eq none b h = cc
answers-eq (some a) b h = ap some (iff-eq a b h)

abbrev request_bit : ℕ → Bool
request_bit c =
    answers (is_set capability_req_token c new_capabilities) (contains default_req_capabilities c)

request_table : every request_bit 112 ≡ true
unfolding every answers new_capabilities is_set
request_table = refl

-- The default capabilities: for each of the 112 bits, the request bitmap that a login sends has it
-- exactly if it is in the list of defaults.
new_capabilities_request :
    (c : ℕ)
    → c < 112
    → is_set capability_req_token c new_capabilities ≡ some (contains default_req_capabilities c)
new_capabilities_request c h = answers-eq _ _ (every-true request_bit 112 c h request_table)
