-- ===== src/Packet/Messages/Skip.antt =====
-- Skipping through the packets, in `skip` of buffer.go.
use tds.Base.{
  ℕ, zero, suc, ◌+◌, ◌-◌, ◌%◌, ◌<◌, ◌≤◌, ◌≡◌, refl, sym, ap, ◌∙◌, Option, none, [], ◌∷◌, ◌++◌,
  length, take, drop, replicate, length-replicate, length-take, length-drop, take-append-drop,
  append_assoc, arith, Bytes, eq-nil_of_length, ltb-false, lt→ltb, subst,
}
use native.Mathlib.Decide.{dec_lt}
use tds.Golang.Errors.{Error}
use tds.Packet.{Buf, buf}
use tds.Packet.Receive.Through.{Carrying, read_full-packets}
use tds.Packet.Messages.{skip, skip_loop, skip_size}

-- What is left where `rest` is behind the bytes that were to be skipped.
abbrev pub Skipped : Buf × Option Error → Bytes → Type 0
Skipped r rest = (t : Buf) × (r ≡ (t, none)) × Carrying t rest

skip_size_lem :
    (cnt skipped : ℕ)
    → skipped % 50 ≡ 0
    → skipped < cnt
    → (skip_size cnt skipped ≤ cnt - skipped)
      × (cnt - skipped - skip_size cnt skipped ≡ cnt - (skipped + 50))
skip_size_lem cnt skipped m h = ground arith

-- A round of the loop that reads `front` and goes on.
skip_round :
    (fuel cnt skipped : ℕ) (front more rest : Bytes) (b : Buf)
    → skipped < cnt
    → length front ≡ skip_size cnt skipped
    → Carrying b (front ++ more)
    → ((t : Buf) → Carrying t more → Skipped (skip_loop fuel cnt (skipped + 50) t) rest)
    → Skipped (skip_loop (suc fuel) cnt skipped b) rest
unfolding skip_loop
skip_round fuel cnt skipped front more rest b h n c next =
    let p : Bytes = replicate (skip_size cnt skipped) 0 in
    let (t, read, after) =
      read_full-packets b front more p (n ∙ sym (length-replicate (skip_size cnt skipped) 0)) c in
    let (u, same, left) = next t after in
    (u, ground (arith, read, same, lt→ltb skipped cnt h), left)

skip_loop-packets :
    (fuel cnt skipped : ℕ) (bs rest : Bytes) (b : Buf)
    → length bs ≡ cnt - skipped
    → cnt - skipped ≤ fuel
    → skipped % 50 ≡ 0
    → Carrying b (bs ++ rest)
    → Skipped (skip_loop fuel cnt skipped b) rest
skip_loop-packets zero cnt skipped [] rest b n f m c = (b, unfold skip_loop in refl, c)
skip_loop-packets zero cnt skipped (x ∷ bs) rest b n f m c = absurd (omega arith)
skip_loop-packets (suc fuel) cnt skipped bs rest b n f m c = elim (dec_lt skipped cnt) [
  | yes h ↦
      let k = skip_size cnt skipped in
      let (small, left) = skip_size_lem cnt skipped m h in
      let more = drop k bs ++ rest in
      let cut : bs ++ rest ≡ take k bs ++ more =
        ap (λ q. q ++ rest) (sym (take-append-drop k bs))
        ∙ append_assoc (take k bs) (drop k bs) rest in
      skip_round fuel cnt skipped (take k bs) more rest b h (omega (arith, length-take k bs, small))
        (subst (Carrying b) cut c)
        (λ t after.
          skip_loop-packets fuel cnt (skipped + 50) (drop k bs) rest t
            (omega (arith, length-drop k bs, left)) (omega arith) (omega (arith, m)) after)
  | no h ↦
      let empty : bs ≡ [] = eq-nil_of_length bs (omega (arith, h)) in
      (
        b,
        unfold skip_loop in rw (ltb-false skipped cnt (omega (arith, h))) refl,
        subst (λ q. Carrying b (q ++ rest)) empty c,
      )
]

-- Skipping as many bytes as `bs` has takes them off the packets that carry `bs ++ rest`, through however many
-- packets and whether it is done at once or in rounds of 50 bytes: there is no error, and `rest` is left.
pub skip-packets :
    (bs rest : Bytes) (b : Buf)
    → Carrying b (bs ++ rest)
    → (t : Buf) × (skip (length bs) b ≡ (t, none)) × Carrying t rest
unfolding skip
skip-packets [] rest b c = (b, refl, c)
skip-packets (x ∷ bs) rest b c =
    let cnt = length (x ∷ bs) in
    let p : Bytes = replicate cnt 0 in
    let (t, read, after) = read_full-packets b (x ∷ bs) rest p (sym (length-replicate cnt 0)) c in
    let (u, same, left) =
      skip_loop-packets cnt cnt 0 (x ∷ bs) rest b (omega arith) (omega arith) refl c in
    elim (dec_lt cnt 50) [
      | yes h ↦ (t, ground (arith, read, lt→ltb cnt 50 h), after)
      | no h ↦ (u, ground (arith, same, h), left)
    ]
