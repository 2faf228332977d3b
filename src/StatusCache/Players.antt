-- ===== src/StatusCache/Players.antt =====
-- What `samePlayers` decides: two known player lists hold the same names, each as often.
use hogs.Prelude.{
  ℕ, suc, ◌+◌, ◌-◌, ◌≤◌, ◌<◌, String, true, false, not, List, [], ◌∷◌, some, eqb, length,
  if◌then◌else◌, ◌==◌, eq_iff, eq_refl, ◌≡◌, ◌↔◌, refl, arith,
}
use hogs.StatusCache.{Player, bump, tally, strike, same_players}

-- How often a name is in the list.
abbrev pub count : String → List Player → ℕ
count key [] = 0
count key (p ∷ ps) = (if p.name == key then 1 else 0) + count key ps

tally_lem :
    (ps : List Player) (seen : String → ℕ) (key : String)
    → tally ps seen key ≡ seen key + count key ps
tally_lem [] seen key = omega arith
tally_lem (p ∷ ps) seen key = ground (arith, tally_lem ps (bump p.name seen) key)

abbrev less : String → (String → ℕ) → String → ℕ
less name seen key = if name == key then seen key - 1 else seen key

strike-count :
    (ps : List Player) (seen : String → ℕ) (key : String)
    → strike ps seen ≡ true
    → count key ps ≤ seen key
unfolding strike
strike-count [] seen key h = omega arith
strike-count (p ∷ ps) seen key h =
    ground (arith, eq_iff p.name key, strike-count ps (less p.name seen) key)

strike-true :
    (ps : List Player) (seen : String → ℕ)
    → ((key : String) → count key ps ≤ seen key)
    → strike ps seen ≡ true
unfolding strike
strike-true [] seen h = refl
strike-true (p ∷ ps) seen h =
    let own : 0 < seen p.name = ground (arith, h p.name, eq_refl p.name) in
    let rest = strike-true ps (less p.name seen) (λ key. ground (arith, h key)) in ground arith

-- The list without the first player of a name.
drop_name : String → List Player → List Player
drop_name name [] = []
drop_name name (p ∷ ps) = if p.name == name then ps else p ∷ drop_name name ps

length-drop_name :
    (name : String) (ps : List Player)
    → 0 < count name ps
    → length ps ≡ suc (length (drop_name name ps))
unfolding drop_name
length-drop_name name [] h = absurd (omega arith)
length-drop_name name (p ∷ ps) h = ground (arith, length-drop_name name ps)

count-drop_name :
    (name key : String) (ps : List Player)
    → 0 < count name ps
    → count key ps ≡ count key (drop_name name ps) + (if name == key then 1 else 0)
unfolding drop_name
count-drop_name name key [] h = absurd (omega arith)
count-drop_name name key (p ∷ ps) h =
    ground
      (arith, count-drop_name name key ps, eq_iff p.name name, eq_iff p.name key, eq_iff name key)

-- Of two lists of one length, one that has each name at most as often has it as often.
count_eq :
    (b a : List Player)
    → ((key : String) → count key b ≤ count key a)
    → length a ≡ length b
    → (key : String) → count key a ≡ count key b
count_eq [] [] h l key = refl
count_eq [] (p ∷ a) h l key = absurd (omega arith)
count_eq (p ∷ b) a h l key =
    let own : 0 < count p.name a = ground (arith, h p.name, eq_refl p.name) in
    let less = λ (k : String). count-drop_name p.name k a own in
    ground (
      arith,
      less key,
      length-drop_name p.name a,
      count_eq b (drop_name p.name a) (λ k. ground (arith, h k, less k))
          (omega (arith, length-drop_name p.name a own)) key,
    )

count-length_aux :
    (a b : List Player) → ((key : String) → count key a ≡ count key b) → length a ≡ length b
count-length_aux [] [] h = refl
count-length_aux [] (p ∷ b) h = ground (arith, h p.name, eq_refl p.name)
count-length_aux (p ∷ a) b h =
    let own : 0 < count p.name b = ground (arith, h p.name, eq_refl p.name) in
    omega (
      arith,
      length-drop_name p.name b own,
      count-length_aux a (drop_name p.name b)
          (λ k. ground (arith, h k, count-drop_name p.name k b own)),
    )

-- Two player lists that are both known count as the same exactly when every name is in both as
-- often, in whatever order; the ids play no part.
pub same_players_iff :
    (a b : List Player)
    → (same_players (some a) (some b) ≡ true) ↔ ((key : String) → count key a ≡ count key b)
unfolding same_players
same_players_iff a b = (onto, back)
  where
    onto :
        (if not (eqb (length a) (length b)) then false else strike b (tally a (λ key. 0))) ≡ true
        → (key : String) → count key a ≡ count key b
    onto h key =
        count_eq b a
          (λ k. ground (arith, strike-count b (tally a (λ key. 0)) k, tally_lem a (λ key. 0) k))
          (ground arith) key

    back :
        ((key : String) → count key a ≡ count key b)
        → (if not (eqb (length a) (length b)) then false else strike b (tally a (λ key. 0))) ≡ true
    back h =
        let l = count-length_aux a b h in
        let s =
          strike-true b (tally a (λ key. 0)) (λ k. ground (arith, h k, tally_lem a (λ key. 0) k)) in
        ground arith
