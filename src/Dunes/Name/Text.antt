-- ===== src/Dunes/Name/Text.antt =====
-- Names written by `to_string` are read back by `from_str`.
use maestro_dogecoin_indexer.Prelude.{
  ℕ, zero, suc, ◌+◌, ◌-◌, ◌*◌, ◌/◌, ◌%◌, ◌^◌, ◌≤◌, ◌<◌, ◌≡◌, refl, ap, sym, ◌∙◌, true, false, some,
  List, [], ◌∷◌, ◌==◌, arith, Bool-cases, inl, inr, ==_iff,
}
use maestro_dogecoin_indexer.Prelude.Words.{u128_max}
use native.Mathlib.Decide.{dec_lt}
use maestro_dogecoin_indexer.Dunes.Name.{
  max_name, symbol_loop, to_string, ok, from_str_loop, from_str,
}

read_first :
    (d : ℕ) (s : List ℕ) → d < 26 → from_str_loop true 0 ((b'A' + d) ∷ s) ≡ from_str_loop false d s
unfolding from_str_loop
read_first d s h = ground arith

read_next :
    (x d : ℕ) (s : List ℕ)
    → d < 26
    → (x + 1) * 26 + d ≤ u128_max
    → from_str_loop false x ((b'A' + d) ∷ s) ≡ from_str_loop false ((x + 1) * 26 + d) s
unfolding from_str_loop
read_next x d s h fits = ground arith

symbol_loop_step :
    (fuel n : ℕ) (symbol : List ℕ)
    → symbol_loop (suc fuel) (n + 1) symbol ≡ symbol_loop fuel (n / 26) ((b'A' + n % 26) ∷ symbol)
unfolding symbol_loop
symbol_loop_step fuel n symbol =
    let e : n + 1 - 1 ≡ n = omega arith in
    let nz : ((n + 1) == 0) ≡ false = ground arith in rw (e, nz)

symbol_loop_end : (fuel : ℕ) (symbol : List ℕ) → symbol_loop (suc fuel) 0 symbol ≡ some symbol
unfolding symbol_loop
symbol_loop_end fuel symbol = refl

-- Over what the loop of `fmt` writes in front of `symbol`, the reader arrives at `symbol` with `n - 1`.
symbol_loop_reads :
    (fuel n : ℕ) (symbol : List ℕ)
    → n + 1 < 26 ^ fuel
    → n < u128_max
    → (s : List ℕ) × (symbol_loop (suc fuel) (n + 1) symbol ≡ some s)
      × (from_str_loop true 0 s ≡ from_str_loop false n symbol)
symbol_loop_reads zero n symbol h fits = absurd (omega arith)
symbol_loop_reads (suc fuel) n symbol h fits = elim (dec_lt n 26) [
  | yes small ↦
      let q : n / 26 ≡ 0 = omega arith in
      let r : n % 26 ≡ n = omega arith in
      (
        (b'A' + n % 26) ∷ symbol,
        symbol_loop_step (suc fuel) n symbol ∙ rw q (symbol_loop_end fuel _),
        read_first (n % 26) symbol (omega arith) ∙ ap (λ (m : ℕ). from_str_loop false m symbol) r,
      )
  | no large ↦
      let (s, writes, reads) =
        symbol_loop_reads fuel (n / 26 - 1) ((b'A' + n % 26) ∷ symbol) (omega arith)
          (omega arith) in
      let q : n / 26 ≡ n / 26 - 1 + 1 = omega arith in
      (
        s,
        symbol_loop_step (suc fuel) n symbol
            ∙ ap (λ (m : ℕ). symbol_loop (suc fuel) m ((b'A' + n % 26) ∷ symbol)) q
            ∙ writes,
        reads
            ∙ read_next (n / 26 - 1) (n % 26) symbol (omega arith) (omega arith)
            ∙ ap (λ (m : ℕ). from_str_loop false m symbol) (omega arith),
      )
]

-- Every u128 has a name, and `from_str` reads the number back from it.
pub from_str-to_string :
    (dune : ℕ) → dune ≤ u128_max → (s : List ℕ) × (to_string dune ≡ some s) × (from_str s ≡ ok dune)
unfolding to_string from_str
from_str-to_string dune h = elim (Bool-cases (dune == u128_max)) [
  | inl top ↦ (max_name, rw top, ap ok (sym ((==_iff dune u128_max).0 top)))
  | inr below ↦
      let (s, writes, reads) = symbol_loop_reads 28 dune [] (omega arith) (ground arith) in
      (s, rw (below, writes), unfold from_str_loop in reads)
]
