-- ===== src/Client/Config/Rules.antt =====
-- On the forwarding rules of nat-client/src/config.rs.
use nat_server.Common.{
  ℕ, ◌+◌, ◌≤◌, Bool, true, ◌||◌, not, some, List, [], ◌∷◌, ◌++◌, ◌==◌, list_has_eq, list_eq_iff,
  if◌then◌else◌, is_empty, select, length, ◌≡◌, refl, sym, arith, ◌⊎◌, inl, inr, Option-cases,
  Bool-cases,
}
use nat_server.Common.Text.{Text}
use nat_server.Database.{first}
use nat_server.Client.Config.{
  ForwardRule, ClientConfig, is_same_rule, add_rule, remove_rule, is_rule_for, is_rule_for_all,
  target_of_rule, is_enabled, find_target_for_peer,
}

-- How many rules have this one's name and port.
abbrev pub same_count : ForwardRule → List ForwardRule → ℕ
same_count r rules = length (select (is_same_rule r) rules)

-- No two rules have the same name and port.
abbrev pub IsDistinct : ClientConfig → Type 0
IsDistinct c = (r : ForwardRule) → same_count r c.forward_rules ≤ 1

same_count-append :
    (r rule : ForwardRule) (rules : List ForwardRule)
    → same_count r (rules ++ rule ∷ [])
      ≡ same_count r rules + (if is_same_rule r rule then 1 else 0)
same_count-append r rule [] = ground arith
same_count-append r rule (x ∷ rules) = ground (arith, same_count-append r rule rules)

same_count-same :
    (r rule : ForwardRule) (rules : List ForwardRule)
    → is_same_rule r rule ≡ true
    → same_count rule rules ≡ same_count r rules
same_count-same r rule [] h = refl
same_count-same r rule (x ∷ rules) h =
    ground (arith, same_count-same r rule rules h, list_eq_iff rule.name r.name, h)

is_empty-length : (rules : List ForwardRule) → is_empty rules ≡ true → length rules ≡ 0
is_empty-length [] h = refl
is_empty-length (x ∷ rules) h = absurd (cc h)

-- A rule that is added leaves the rules distinct.
pub add_rule-IsDistinct :
    (rule : ForwardRule) (c : ClientConfig) → IsDistinct c → IsDistinct (add_rule rule c)
unfolding add_rule
add_rule-IsDistinct rule c h r =
    elim (Bool-cases (is_empty (select (is_same_rule rule) c.forward_rules))) [
      | inl e ↦ elim (Bool-cases (is_same_rule r rule)) [
        | inl same ↦ ground (
          arith,
          e,
          same,
          same_count-append r rule c.forward_rules,
          same_count-same r rule c.forward_rules same,
          is_empty-length (select (is_same_rule rule) c.forward_rules) e,
        )
        | inr other ↦ ground (arith, e, other, same_count-append r rule c.forward_rules, h r)
      ]
      | inr e ↦ ground (arith, e, h r)
    ]

same_count-select :
    (r : ForwardRule) (p : ForwardRule → Bool) (rules : List ForwardRule)
    → same_count r (select p rules) ≤ same_count r rules
same_count-select r p [] = ground arith
same_count-select r p (x ∷ rules) = ground (arith, same_count-select r p rules)

-- And one that is removed.
pub remove_rule-IsDistinct :
    (id : Text) (c : ClientConfig) → IsDistinct c → IsDistinct (remove_rule id c)
unfolding remove_rule
remove_rule-IsDistinct id c h r =
    ground (arith, h r, same_count-select r (λ x. not (x.id == id)) c.forward_rules)

abbrev pub In : ForwardRule → List ForwardRule → Type 0
In r [] = ⊥
In r (x ∷ rules) = (r ≡ x) ⊎ In r rules

first-select :
    (p : ForwardRule → Bool) (rules : List ForwardRule) (r : ForwardRule)
    → first (select p rules) ≡ some r
    → In r rules × (p r ≡ true)
first-select p [] r h = absurd (cc h)
first-select p (x ∷ rules) r h = elim (Bool-cases (p x)) [
  | inl e ↦ let same : x ≡ r = ground (arith, e, h) in (inl (sym same), rw (sym same) e)
  | inr e ↦ let (m, k) = first-select p rules r (ground (arith, e, h)) in (inr m, k)
]

select_head :
    (p : ForwardRule → Bool) (x : ForwardRule) (rules : List ForwardRule) (r : ForwardRule)
    → p x ≡ true
    → In r (select p (x ∷ rules))
    → (r ≡ x) ⊎ In r (select p rules)
select_head p x rules r e h = rw e at h

select-In :
    (p : ForwardRule → Bool) (rules : List ForwardRule) (r : ForwardRule)
    → In r (select p rules)
    → In r rules × (p r ≡ true)
select-In p [] r h = absurd h
select-In p (x ∷ rules) r h = elim (Bool-cases (p x)) [
  | inl e ↦ elim (select_head p x rules r e h) [
    | inl same ↦ (inl same, rw same e)
    | inr m ↦ let (m', k) = select-In p rules r m in (inr m', k)
  ]
  | inr e ↦ let (m, k) = select-In p rules r (rw e at h) in (inr m, k)
]

-- A target that is found is that of a rule which is enabled, and which is for this peer or for all.
pub find_target_for_peer-allowed :
    (peer : Text) (c : ClientConfig) (t : Text × ℕ)
    → find_target_for_peer peer c ≡ some t
    → (r : ForwardRule) × In r c.forward_rules
      × (r.enabled ≡ true)
      × ((is_rule_for peer r || is_rule_for_all r) ≡ true)
      × (target_of_rule r ≡ t)
unfolding find_target_for_peer
find_target_for_peer-allowed peer c t h =
    let rules = select is_enabled c.forward_rules in
    elim (Option-cases (first (select (is_rule_for peer) rules))) [
      | inr (r, e) ↦
          let (m, k) = first-select (is_rule_for peer) rules r e in
          let (m', on) = select-In is_enabled c.forward_rules r m in
          (r, m', on, ground (arith, k), ground (arith, e, h))
      | inl none_named ↦ elim (Option-cases (first (select is_rule_for_all rules))) [
        | inr (r, e) ↦
            let (m, k) = first-select is_rule_for_all rules r e in
            let (m', on) = select-In is_enabled c.forward_rules r m in
            (r, m', on, ground (arith, k), ground (arith, none_named, e, h))
        | inl none_for_all ↦ absurd (ground (arith, none_named, none_for_all, h))
      ]
    ]
