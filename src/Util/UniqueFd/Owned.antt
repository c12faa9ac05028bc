-- ===== src/Util/UniqueFd/Owned.antt =====
-- No descriptor is lost, and none is closed twice.
use k_watch.Prelude.{
  ℕ, zero, suc, ◌+◌, ◌≡◌, ◌≢◌, refl, ◌∙◌, Option, none, some, List, [], ◌∷◌, ◌++◌, ◌==◌,
  if◌then◌else◌, get_elem?, set, arith, Bool-cases, inl, inr,
}
use k_watch.Util.UniqueFd.{
  Descriptors, open_fd, construct, replace, take_fd, reset, destroy, give, release, move_out,
  move_construct, move_in, move_assign, Op, constructs, resets, destroys, releases, moves, assigns,
  apply, run,
}

-- how often a descriptor is in a list
unfoldable pub count : ℕ → List ℕ → ℕ
count fd [] = 0
count fd (x ∷ xs) = (if x == fd then 1 else 0) + count fd xs

abbrev pub holds_fd : ℕ → Option ℕ → ℕ
holds_fd fd none = 0
holds_fd fd (some x) = if x == fd then 1 else 0

-- how many objects hold it
unfoldable pub holders : ℕ → List (Option ℕ) → ℕ
holders fd [] = 0
holders fd (o ∷ os) = holds_fd fd o + holders fd os

-- Each descriptor is held, closed and given away as often as it was taken.
pub record Accounted (d : Descriptors) : Type 0 where
  pub accounts :
      (fd : ℕ) → count fd d.taken ≡ holders fd d.slots + count fd d.closed + count fd d.given

count-append : (fd : ℕ) (xs ys : List ℕ) → count fd (xs ++ ys) ≡ count fd xs + count fd ys
unfolding count
count-append fd [] ys = omega arith
count-append fd (x ∷ xs) ys = omega (arith, count-append fd xs ys)

count-open_fd : (fd : ℕ) (o : Option ℕ) → count fd (open_fd o) ≡ holds_fd fd o
unfolding count
count-open_fd fd none = refl
count-open_fd fd (some x) = omega arith

holders-append :
    (fd : ℕ) (xs ys : List (Option ℕ)) → holders fd (xs ++ ys) ≡ holders fd xs + holders fd ys
unfolding holders
holders-append fd [] ys = omega arith
holders-append fd (x ∷ xs) ys = omega (arith, holders-append fd xs ys)

holders-set :
    (fd : ℕ) (os : List (Option ℕ)) (i : ℕ) (o v : Option ℕ)
    → get_elem? os i ≡ some o
    → holders fd (set os i v) + holds_fd fd o ≡ holders fd os + holds_fd fd v
unfolding holders
holders-set fd [] i o v e = cc
holders-set fd (x ∷ os) zero o v e = ground (arith, e)
holders-set fd (x ∷ os) (suc i) o v e = omega (arith, holders-set fd os i o v e)

get_elem?-set_ne :
    (os : List (Option ℕ)) (i j : ℕ) (v : Option ℕ)
    → i ≢ j
    → get_elem? (set os j v) i ≡ get_elem? os i
get_elem?-set_ne [] i j v h = refl
get_elem?-set_ne (x ∷ os) zero zero v h = absurd (h refl)
get_elem?-set_ne (x ∷ os) zero (suc j) v h = refl
get_elem?-set_ne (x ∷ os) (suc i) zero v h = refl
get_elem?-set_ne (x ∷ os) (suc i) (suc j) v h = get_elem?-set_ne os i j v (λ e. h (omega arith))

-- The descriptors that an operation appends, and what they add to a count.
appended :
    (fd : ℕ) (xs : List ℕ) (o : Option ℕ) → count fd (xs ++ open_fd o) ≡ count fd xs + holds_fd fd o
appended fd xs o = omega (arith, count-append fd xs (open_fd o), count-open_fd fd o)

replace-Accounted :
    (i : ℕ) (f : Option ℕ) (o : Option (Option ℕ)) (d : Descriptors)
    → get_elem? d.slots i ≡ o
    → Accounted d
    → Accounted (replace i f o (take_fd o f d))
replace-Accounted i f none d e a = a
replace-Accounted i f (some held) d e a = record {
  accounts = λ fd. omega (
    arith,
    a.accounts fd,
    holders-set fd d.slots i held f e,
    appended fd d.taken f,
    appended fd d.closed held,
  );
}

destroy-Accounted :
    (i : ℕ) (o : Option (Option ℕ)) (d : Descriptors)
    → get_elem? d.slots i ≡ o
    → Accounted d
    → Accounted (replace i none o d)
destroy-Accounted i none d e a = a
destroy-Accounted i (some held) d e a = record {
  accounts = λ fd.
      omega (arith, a.accounts fd, holders-set fd d.slots i held none e, appended fd d.closed held);
}

give-Accounted :
    (i : ℕ) (o : Option (Option ℕ)) (d : Descriptors)
    → get_elem? d.slots i ≡ o
    → Accounted d
    → Accounted (give i o d)
give-Accounted i none d e a = a
give-Accounted i (some held) d e a = record {
  accounts = λ fd.
      omega (arith, a.accounts fd, holders-set fd d.slots i held none e, appended fd d.given held);
}

move_out-Accounted :
    (j : ℕ) (o : Option (Option ℕ)) (d : Descriptors)
    → get_elem? d.slots j ≡ o
    → Accounted d
    → Accounted (move_out j o d)
unfolding holders
move_out-Accounted j none d e a = a
move_out-Accounted j (some held) d e a = record {
  accounts = λ fd. omega (
    arith,
    a.accounts fd,
    holders-set fd d.slots j held none e,
    holders-append fd (set d.slots j none) (held ∷ []),
  );
}

move_in-Accounted :
    (i j : ℕ) (o other : Option (Option ℕ)) (d : Descriptors)
    → i ≢ j
    → get_elem? d.slots i ≡ o
    → get_elem? d.slots j ≡ other
    → Accounted d
    → Accounted (move_in i j o other d)
move_in-Accounted i j none other d ne e k a = a
move_in-Accounted i j (some held) none d ne e k a = a
move_in-Accounted i j (some held) (some f) d ne e k a = record {
  accounts = λ fd. omega (
    arith,
    a.accounts fd,
    holders-set fd d.slots j f none k,
    holders-set fd (set d.slots j none) i held f (get_elem?-set_ne d.slots i j none ne ∙ e),
    appended fd d.closed held,
  );
}

apply-Accounted : (d : Descriptors) (op : Op) → Accounted d → Accounted (apply d op)
unfolding apply construct reset destroy release move_construct move_assign holders
apply-Accounted d (constructs f) a = record {
  accounts =
      λ fd. omega (arith, a.accounts fd, holders-append fd d.slots (f ∷ []), appended fd d.taken f);
}
apply-Accounted d (resets i f) a = replace-Accounted i f (get_elem? d.slots i) d refl a
apply-Accounted d (destroys i) a = destroy-Accounted i (get_elem? d.slots i) d refl a
apply-Accounted d (releases i) a = give-Accounted i (get_elem? d.slots i) d refl a
apply-Accounted d (moves j) a = move_out-Accounted j (get_elem? d.slots j) d refl a
apply-Accounted d (assigns i j) a = elim (Bool-cases (i == j)) [
  | inl e ↦ rw (apply, move_assign, e) a
  | inr e ↦
      rw (apply, move_assign, e)
        (move_in-Accounted i j (get_elem? d.slots i) (get_elem? d.slots j) d (ground (arith, e))
          refl refl a)
]

abbrev pub no_descriptors : Descriptors
no_descriptors = record { slots = []; taken = []; closed = []; given = [] }

run_from-Accounted : (ops : List Op) (d : Descriptors) → Accounted d → Accounted (run ops d)
unfolding run
run_from-Accounted [] d a = a
run_from-Accounted (op ∷ ops) d a = run_from-Accounted ops (apply d op) (apply-Accounted d op a)

-- After any operations on the objects that own descriptors, from none: each descriptor was taken
-- by an object as often as it is held, was closed and was given away by release, together. So none
-- is lost and none is closed twice that was taken once.
pub run-Accounted : (ops : List Op) → Accounted (run ops no_descriptors)
unfolding count holders
run-Accounted ops = run_from-Accounted ops no_descriptors (record { accounts = λ fd. refl })
