-- ===== src/Key.antt =====
-- Keys of the maps: `Ord` as `BTreeMap` needs it. Numbers are inode ids and file descriptors; a
-- name is the list of its UTF-8 bytes, which Rust compares byte by byte.
use monaka_fs.Prelude.{
  ℕ, ◌≡◌, refl, ◌↔◌, Bool, true, false, ◌&&◌, ◌||◌, List, [], ◌∷◌, arith, ltb, ◌==◌ as nat_eq,
  ==_iff,
}

pub record Key (K : Type 0) : Type 0 where
  pub beq : K → K → Bool
  pub less : K → K → Bool
  pub beq_iff : (a b : K) → (beq a b ≡ true) ↔ (a ≡ b)

infix 50 ◌==◌ ◌≺◌
abbrev pub ◌==◌ : {K : Type 0} ⦃k : Key K⦄ → K → K → Bool
◌==◌ ⦃k⦄ = k.beq

abbrev pub ◌≺◌ : {K : Type 0} ⦃k : Key K⦄ → K → K → Bool
◌≺◌ ⦃k⦄ = k.less

abbrev pub Name : Type 0
Name = List ℕ

abbrev pub name_eq : Name → Name → Bool
name_eq [] [] = true
name_eq [] (b ∷ bs) = false
name_eq (a ∷ as') [] = false
name_eq (a ∷ as') (b ∷ bs) = nat_eq a b && name_eq as' bs

abbrev pub name_less : Name → Name → Bool
name_less [] [] = false
name_less [] (b ∷ bs) = true
name_less (a ∷ as') [] = false
name_less (a ∷ as') (b ∷ bs) = ltb a b || (nat_eq a b && name_less as' bs)

pub name_eq_iff : (a b : Name) → (name_eq a b ≡ true) ↔ (a ≡ b)
name_eq_iff [] [] = (λ h. refl, λ h. refl)
name_eq_iff [] (b ∷ bs) = (λ h. cc, λ h. cc)
name_eq_iff (a ∷ as') [] = (λ h. cc, λ h. cc)
name_eq_iff (a ∷ as') (b ∷ bs) =
    (λ h. ground (arith, name_eq_iff as' bs), λ h. ground (arith, name_eq_iff as' bs))

instance abbrev pub nat_key : Key ℕ
nat_key = record { beq = nat_eq; less = ltb; beq_iff = ==_iff }

instance abbrev pub name_key : Key Name
name_key = record { beq = name_eq; less = name_less; beq_iff = name_eq_iff }
