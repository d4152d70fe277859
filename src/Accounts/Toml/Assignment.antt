-- ===== src/Accounts/Toml/Assignment.antt =====
-- On the lines that the updates of config.toml and hbbr.toml write.
use mathlib.Core.List.{reverse}
use nat_server.Common.{
  ℕ, Bool, true, false, ◌&&◌, not, some, [], ◌∷◌, ◌++◌, contains, nat_has_eq, ◌≡◌, refl, sym, ap,
  ◌∙◌, arith, nat_eq, ◌==◌, list_has_eq, list_eq_iff,
}
use nat_server.Common.Text.{Text, trim, trim_end, trim_start, is_whitespace}
use nat_server.Common.Text.Trim.{trim_end-append}
use nat_server.Common.Split.{split_once}
use nat_server.Common.Split.Laws.{split_once-append}
use nat_server.Accounts.IpLists.RoundTrip.{starts_plain, contains-append}
use nat_server.Accounts.IpLists.Loaded.{
  trim-plain, starts_plain-append, starts_plain-there, append-append,
}
use nat_server.Accounts.Toml.{pair, item, opens_section, split_ini_kv, trim_quotes, drop_quotes}
use nat_server.Accounts.Toml.Update.{assignment}
use nat_server.Accounts.Toml.Lines.{trim-append_white, trim_start-white}

-- A key as a line can hold it.
pub record IsKey (k : Text) : Type 0 where
  pub starts : starts_plain k ≡ true
  pub no_header : opens_section k ≡ false
  pub trimmed : trim k ≡ k
  pub no_sign : contains b'=' k ≡ false
  pub one_line : contains 10 k ≡ false

abbrev pub is_key : Text → Bool
is_key k =
    starts_plain k
    && (not (opens_section k) && (trim k == k && (not (contains b'=' k) && not (contains 10 k))))

pub is_key-IsKey : (k : Text) → is_key k ≡ true → IsKey k
is_key-IsKey k h = record {
  starts = ground arith;
  no_header = ground arith;
  trimmed = ground (arith, list_eq_iff (trim k) k);
  no_sign = ground arith;
  one_line = ground arith;
}

-- A value that is trimmed, of one line, and not in quotes.
pub record IsValue (v : Text) : Type 0 where
  pub trimmed : trim v ≡ v
  pub ends : trim_end v ≡ v
  pub no_quotes : trim_quotes v ≡ v
  pub one_line : contains 10 v ≡ false

trim-space : (v : Text) → trim (b' ' ∷ v) ≡ trim v
unfolding trim is_whitespace
trim-space v = ap (λ x. reverse (trim_start (reverse x))) (trim_start-white b' ' v refl)

split_ini_kv-equation :
    (k r v : Text)
    → IsKey k
    → trim r ≡ v
    → trim_quotes v ≡ v
    → split_ini_kv (k ++ (b' ' ∷ b'=' ∷ r)) ≡ some (k, v)
unfolding split_ini_kv is_whitespace
split_ini_kv-equation k r v h t q =
    let split : split_once b'=' (k ++ (b' ' ∷ b'=' ∷ r)) ≡ some (k ++ (b' ' ∷ []), r) =
      ap (split_once b'=') (sym (append-append k (b' ' ∷ []) (b'=' ∷ r)))
      ∙ split_once-append b'=' (k ++ (b' ' ∷ [])) r
          (ground (arith, contains-append b'=' k (b' ' ∷ []), h.no_sign)) in
    ground
      (arith, split, trim-append_white b' ' k refl, h.trimmed, starts_plain-there k h.starts, t, q)

trim-assignment_to :
    (k : Text) (d : ℕ) (v : Text)
    → IsKey k
    → trim_end (d ∷ v) ≡ d ∷ v
    → trim (assignment k (d ∷ v)) ≡ assignment k (d ∷ v)
trim-assignment_to k d v h e =
    trim-plain (assignment k (d ∷ v)) (starts_plain-append k (b' ' ∷ b'=' ∷ b' ' ∷ d ∷ v) h.starts)
      (ap trim_end (sym (append-append k (b' ' ∷ b'=' ∷ b' ' ∷ []) (d ∷ v)))
        ∙ trim_end-append (k ++ (b' ' ∷ b'=' ∷ b' ' ∷ [])) d v e
        ∙ append-append k (b' ' ∷ b'=' ∷ b' ' ∷ []) (d ∷ v))

trim-assignment_empty : (k : Text) → IsKey k → trim (assignment k []) ≡ k ++ (b' ' ∷ b'=' ∷ [])
unfolding is_whitespace trim_end trim_start
trim-assignment_empty k h =
    ap trim (sym (append-append k (b' ' ∷ b'=' ∷ []) (b' ' ∷ [])))
    ∙ trim-append_white b' ' (k ++ (b' ' ∷ b'=' ∷ [])) refl
    ∙ trim-plain (k ++ (b' ' ∷ b'=' ∷ [])) (starts_plain-append k (b' ' ∷ b'=' ∷ []) h.starts)
        (trim_end-append k b' ' (b'=' ∷ []) refl)

-- A trimmed line of a key and a value.
item-pair :
    (is_header : Text → Bool) (l k r v : Text)
    → ((t : Text) → opens_section t ≡ false → is_header t ≡ false)
    → IsKey k
    → trim l ≡ k ++ (b' ' ∷ b'=' ∷ r)
    → trim r ≡ v
    → trim_quotes v ≡ v
    → item is_header l ≡ pair k v
unfolding item
item-pair is_header l [] r v only h e t q = absurd (cc (h.starts))
item-pair is_header l (c ∷ k) r v only h e t q =
    let t' : Text = (c ∷ k) ++ (b' ' ∷ b'=' ∷ r) in
    let none_opens : is_header t' ≡ false = only t' h.no_header in
    let plain : nat_eq c b'#' ≡ false = ground (arith, h.starts) in
    rw (e, none_opens, plain, split_ini_kv-equation (c ∷ k) r v h t q) refl

-- What is written is read as this key with this value.
pub item-assignment :
    (is_header : Text → Bool) (k v : Text)
    → ((t : Text) → opens_section t ≡ false → is_header t ≡ false)
    → IsKey k
    → IsValue v
    → item is_header (assignment k v) ≡ pair k v
unfolding trim drop_quotes trim_start
item-assignment is_header k [] only h g =
    item-pair is_header (assignment k []) k [] [] only h (trim-assignment_empty k h) refl refl
item-assignment is_header k (d ∷ v) only h g =
    item-pair is_header (assignment k (d ∷ v)) k (b' ' ∷ d ∷ v) (d ∷ v) only h
      (trim-assignment_to k d v h g.ends) (trim-space (d ∷ v) ∙ g.trimmed) g.no_quotes

pub assignment-no_feed : (k v : Text) → IsKey k → IsValue v → contains 10 (assignment k v) ≡ false
assignment-no_feed k v h g =
    ground (arith, contains-append 10 k (b' ' ∷ b'=' ∷ b' ' ∷ v), h.one_line, g.one_line)
