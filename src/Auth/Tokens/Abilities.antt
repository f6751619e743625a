-- ===== src/Auth/Tokens/Abilities.antt =====
-- The stored list of abilities is read back as it was written.
use apod.Base.{
  ◌≡◌, refl, Bool, true, false, ◌&&◌, String, List, [], ◌∷◌, nat_eq, string_eq, if◌then◌else◌,
  arith, split, join,
}
use apod.Auth.Tokens.{valid_abilities, contains, all_valid, kept, non_empty}

-- The list for three answers.
abbrev pick_deploy : Bool → List String
pick_deploy d = if d then "deploy" ∷ [] else []

abbrev pick_write : Bool → Bool → List String
pick_write w d = if w then "write" ∷ pick_deploy d else pick_deploy d

abbrev pick : Bool → Bool → Bool → List String
pick r w d = if r then "read" ∷ pick_write w d else pick_write w d

kept-pick :
    (asked : List String)
    → kept valid_abilities asked
      ≡ pick (contains "read" asked) (contains "write" asked) (contains "deploy" asked)
unfolding kept
kept-pick asked = refl

read_back_pick : (r w d : Bool) → non_empty (split (join (pick r w d) ",") b',') ≡ pick r w d
unfolding non_empty split join
read_back_pick true true true = refl
read_back_pick true true false = refl
read_back_pick true false true = refl
read_back_pick true false false = refl
read_back_pick false true true = refl
read_back_pick false true false = refl
read_back_pick false false true = refl
read_back_pick false false false = refl

-- There are eight lists that a creation can store; each is split into its abilities again.
pub split-join-kept :
    (asked : List String)
    → non_empty (split (join (kept valid_abilities asked) ",") b',') ≡ kept valid_abilities asked
split-join-kept asked =
    rw (kept-pick asked)
      (read_back_pick (contains "read" asked) (contains "write" asked) (contains "deploy" asked))

-- What is kept of the asked-for abilities is all of them, where they are valid, and nothing else.
pub contains-kept :
    (a : String) (asked order : List String)
    → contains a (kept order asked) ≡ (contains a order && contains a asked)
unfolding contains kept
contains-kept a asked [] = refl
contains-kept a asked (x ∷ order) =
    ground (arith, string_eq.beq_iff a x, contains-kept a asked order)

pub contains_of_all_valid :
    (a : String) (asked : List String)
    → all_valid asked ≡ true
    → contains a asked ≡ true
    → contains a valid_abilities ≡ true
unfolding all_valid contains
contains_of_all_valid a [] v h = ground arith
contains_of_all_valid a (x ∷ asked) v h = ground (
  arith,
  string_eq.beq_iff a x,
  string_eq.beq_iff x "read",
  string_eq.beq_iff x "write",
  string_eq.beq_iff x "deploy",
  string_eq.beq_iff a "read",
  string_eq.beq_iff a "write",
  string_eq.beq_iff a "deploy",
  contains_of_all_valid a asked,
)
