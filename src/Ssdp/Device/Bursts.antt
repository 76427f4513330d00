-- ===== src/Ssdp/Device/Bursts.antt =====
-- How many initial bursts the device sends before it goes over to refreshes.
use rusty_castle.Prelude.{
  ℕ, zero, suc, ◌+◌, ◌-◌, ◌*◌, ◌≤◌, ◌≡◌, refl, subst, ◌↔◌, ◌⊎◌, inl, inr, true, false, List, [],
  ◌∷◌, arith, ◌==◌, Bool-cases, length, All,
}
use rusty_castle.Ssdp.Device.State.{AdvertEntry, initial_alive_count}
use rusty_castle.Ssdp.Device.Targets.{count_down_all}

-- The bursts that the targets still ask for, beyond the last one.
abbrev pub left_over : List AdvertEntry → ℕ
left_over [] = 0
left_over (t ∷ ts) = (t.initial_remaining - 1) + left_over ts

-- The targets behind `n` bursts.
abbrev pub after_bursts : ℕ → List AdvertEntry → List AdvertEntry
after_bursts zero ts = ts
after_bursts (suc n) ts = after_bursts n (count_down_all ts).0

-- A burst is the last one exactly if nothing is left over, and takes one off what is left over.
count_down_all_lem :
    (ts : List AdvertEntry)
    → ((left_over ts ≡ 0) × ((count_down_all ts).1 ≡ true) × (left_over (count_down_all ts).0 ≡ 0))
      ⊎ (((count_down_all ts).1 ≡ false) × (suc (left_over (count_down_all ts).0) ≡ left_over ts))
unfolding count_down_all
count_down_all_lem [] = inl (refl, refl, refl)
count_down_all_lem (t ∷ ts) = elim (Bool-cases ((t.initial_remaining - 1) == 0)) [
  | inl e ↦ elim (count_down_all_lem ts) [
    | inl (a, b, c) ↦ inl (ground arith, ground (arith, b), ground (arith, c))
    | inr (b, c) ↦ inr (ground (arith, b), ground (arith, c))
  ]
  | inr e ↦ inr (ground arith, ground (arith, e))
]

last_burst :
    (n : ℕ) (ts : List AdvertEntry)
    → ((count_down_all (after_bursts n ts)).1 ≡ true) ↔ (left_over ts ≤ n)
last_burst zero ts = elim (count_down_all_lem ts) [
  | inl (a, b, c) ↦ (λ _. omega arith, λ _. b)
  | inr (b, c) ↦ (λ h. absurd (ground (arith, b, h)), λ h. absurd (omega arith))
]
last_burst (suc n) ts = elim (count_down_all_lem ts) [
  | inl (a, b, c) ↦ (λ _. omega arith, λ _. (last_burst n (count_down_all ts).0).1 (omega arith))
  | inr (b, c) ↦ (
    λ h. omega (arith, (last_burst n (count_down_all ts).0).0 h),
    λ h. (last_burst n (count_down_all ts).0).1 (omega arith),
  )
]

left_over-fresh :
    (ts : List AdvertEntry)
    → All (λ (t : AdvertEntry). t.initial_remaining ≡ initial_alive_count) ts
    → left_over ts ≡ 2 * length ts
left_over-fresh [] a = refl
left_over-fresh (t ∷ ts) (e, a) = omega (arith, left_over-fresh ts a)

-- With targets that all have three bursts to go, the burst behind n others finds all of them done
-- exactly if n is at least twice the number of the targets.
pub initial_bursts_lem :
    (n : ℕ) (ts : List AdvertEntry)
    → All (λ (t : AdvertEntry). t.initial_remaining ≡ initial_alive_count) ts
    → ((count_down_all (after_bursts n ts)).1 ≡ true) ↔ (2 * length ts ≤ n)
initial_bursts_lem n ts a =
    subst (λ m. ((count_down_all (after_bursts n ts)).1 ≡ true) ↔ (m ≤ n)) (left_over-fresh ts a)
      (last_burst n ts)
