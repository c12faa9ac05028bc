-- ===== src/Cli/Detach/Exit.antt =====
-- When `detach` succeeds.
use k_watch.Prelude.{
  ℕ, zero, suc, ◌≤◌, ◌≡◌, ◌↔◌, refl, ap, Bool, true, false, ◌||◌, ◌==◌, arith, subst, ◌*◌,
  Bool-cases, inl, inr,
}
use k_watch.Util.Result.{Result}
use k_watch.Cli.Detach.{is_ignorable_detach_error, poll_loop, wait_for_owner_exit}

-- no error, or one that says that nothing is attached
abbrev pub is_harmless : ℕ → Bool
is_harmless e = e == 0 || is_ignorable_detach_error e

poll_loop_lem :
    (n : ℕ) (alive : ℕ → Bool)
    → (poll_loop n alive ≡ true) ↔ ((i : ℕ) × (i ≤ n) × (alive i ≡ false))
unfolding poll_loop
poll_loop_lem zero alive = (
  λ h. (0, omega arith, ground arith),
  λ (i, le, h). ground (arith, ap alive {x = i} {y = 0} (omega arith)),
)
poll_loop_lem (suc n) alive = elim (Bool-cases (alive 0)) [
  | inl e ↦ rw (poll_loop, e) (later e (poll_loop_lem n (λ i. alive (suc i))))
  | inr e ↦ rw (poll_loop, e) (λ h. (0, omega arith, e), λ h. refl)
]
  where
    later :
        alive 0 ≡ true
        → ((poll_loop n (λ i. alive (suc i)) ≡ true)
            ↔ ((i : ℕ) × (i ≤ n) × (alive (suc i) ≡ false)))
        → (poll_loop n (λ i. alive (suc i)) ≡ true) ↔ ((i : ℕ) × (i ≤ suc n) × (alive i ≡ false))
    later here (to, from) = (λ h. shift (to h), λ (i, le, h). back i le h)
      where
        shift :
            ((i : ℕ) × (i ≤ n) × (alive (suc i) ≡ false))
            → (i : ℕ) × (i ≤ suc n) × (alive i ≡ false)
        shift (i, le, h) = (suc i, omega arith, h)

        back : (i : ℕ) → i ≤ suc n → alive i ≡ false → poll_loop n (λ i. alive (suc i)) ≡ true
        back zero le h = absurd (ground (arith, here, h))
        back (suc i) le h = from (i, omega arith, h)

-- The wait for the owner's exit with a timeout that the steps of 100000 microseconds divide: it
-- says that the owner has gone exactly if one of the polls, one for each step and a last one, says
-- so.
pub wait_for_owner_exit_lem :
    (alive : ℕ → Bool) (steps : ℕ)
    → (wait_for_owner_exit alive (steps * 100000) ≡ true)
      ↔ ((i : ℕ) × (i ≤ steps) × (alive i ≡ false))
unfolding wait_for_owner_exit
wait_for_owner_exit_lem alive steps =
    subst (λ (n : ℕ). (poll_loop n alive ≡ true) ↔ ((i : ℕ) × (i ≤ steps) × (alive i ≡ false)))
      (omega arith) (poll_loop_lem steps alive)
