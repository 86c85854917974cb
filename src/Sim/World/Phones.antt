-- ===== src/Sim/World/Phones.antt =====
-- No two phones of src/smartdialer/sim/world.py, or of the `seed` command, are the same.
use text.Mathlib.Text.{◌==◌ as str_eq}
use text.Mathlib.TextEquality.{eq_iff}
use smart_dialer.Common.{
  ℕ, String, joined, ◌≡◌, ap, sym, ◌∙◌, true, List, [], ◌∷◌, ◌++◌, ltb, numeral, codes,
  codes-numeral, decimal, drop, read_digits, read_dash, read_end, Bool-cases, inl, inr,
}
use smart_dialer.Sim.World.{sim_phone, padded, demo_phone}

-- What is read back from a phone of the simulator.
abbrev number_of : String → ℕ
number_of s = (read_digits (drop 1 (read_digits (drop 5 (codes s)) 0).1) 0).0

-- What stands behind the first number and its dash.
abbrev second_number : List ℕ → ℕ
second_number s = (read_digits (drop 1 (read_digits s 0).1) 0).0

number_of-sim_phone : (draw : ℕ → ℕ) (i : ℕ) → number_of (sim_phone draw i) ≡ i
unfolding sim_phone
number_of-sim_phone draw i =
    ap second_number (codes-numeral (draw i) (joined "-" (numeral i "")))
    ∙ ap (λ t. second_number (decimal (draw i) ++ b'-' ∷ t)) (codes-numeral i "")
    ∙ ap (λ r. (read_digits (drop 1 r.1) 0).0) (read_dash (draw i) (decimal i ++ []))
    ∙ ap (λ r. r.0) (read_end i)

read_numeral : (i : ℕ) → (read_digits (codes (numeral i "")) 0).0 ≡ i
read_numeral i = ap (λ t. (read_digits t 0).0) (codes-numeral i "") ∙ ap (λ r. r.0) (read_end i)

read_padded : (i : ℕ) → (read_digits (codes (padded i)) 0).0 ≡ i
unfolding padded read_digits
read_padded i = elim (Bool-cases (ltb i 10)) [
  | inl e ↦ rw e (read_numeral i)
  | inr e ↦ elim (Bool-cases (ltb i 100)) [
    | inl f ↦ rw (e, f) (read_numeral i)
    | inr f ↦ elim (Bool-cases (ltb i 1_000)) [
      | inl g ↦ rw (e, f, g) (read_numeral i)
      | inr g ↦ elim (Bool-cases (ltb i 10_000)) [
        | inl h ↦ rw (e, f, g, h) (read_numeral i)
        | inr h ↦ rw (e, f, g, h) (read_numeral i)
      ]
    ]
  ]
]

-- What is read back from a phone of the `seed` command.
abbrev demo_number_of : String → ℕ
demo_number_of s = (read_digits (drop 8 (codes s)) 0).0

demo_number_of-demo_phone : (i : ℕ) → demo_number_of (demo_phone i) ≡ i
unfolding demo_phone
demo_number_of-demo_phone i = read_padded i

-- A function of numbers from whose texts they can be read back gives different texts.
apart :
    (phone : ℕ → String) (read : String → ℕ)
    → ((i : ℕ) → read (phone i) ≡ i)
    → (i j : ℕ) → str_eq (phone i) (phone j) ≡ true
    → i ≡ j
apart phone read h i j e = sym (h i) ∙ ap read ((eq_iff (phone i) (phone j)).0 e) ∙ h j

-- Different numbers have different phones.
abbrev pub Distinct : (ℕ → String) → Type 0
Distinct phone = (i j : ℕ) → str_eq (phone i) (phone j) ≡ true → i ≡ j

pub sim_phone-Distinct : (draw : ℕ → ℕ) → Distinct (sim_phone draw)
sim_phone-Distinct draw = apart (sim_phone draw) number_of (number_of-sim_phone draw)

pub demo_phone-Distinct : Distinct demo_phone
demo_phone-Distinct = apart demo_phone demo_number_of demo_number_of-demo_phone
