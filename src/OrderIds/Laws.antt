-- ===== src/OrderIds/Laws.antt =====
-- Different copies have different ids, and what is written into an id or a label is read back.
use mathlib.Core.Option
use mathlib.Core.Option.{some-injective}
use mathlib.Core.List.{reverse-append, reverse-reverse, append_assoc}
use forex_automated_copy_tra.Base.{
  ℕ, ◌+◌, ◌<◌, ◌≡◌, ◌≢◌, refl, sym, ap, ◌∙◌, Option, none, some, [], ◌∷◌, ◌++◌, reverse, arith,
}
use forex_automated_copy_tra.Text.{Text, codes, str, strip_prefix, strip_suffix, read_from}
use forex_automated_copy_tra.Text.Print.{int-str, before_first-str, str-ends, read_from-str}
use forex_automated_copy_tra.Models.{
  SlaveIntent, SlaveConfig, open_market, place_pending, OpenMarket, PlacePending,
  MasterPositionOpened,
}
use forex_automated_copy_tra.Decision.{open_for}
use forex_automated_copy_tra.OrderIds.{
  position_coid, order_coid, client_order_id_for, master_position_of, extract_master_id_from_label,
  close_suffix, with_close_suffix, strip_close_suffix,
}

-- The master's position is read back from the id of its copy.
pub master_position_of-position_coid :
    (m a : ℕ) → master_position_of (some (position_coid m a)) ≡ some m
unfolding master_position_of position_coid strip_prefix
master_position_of-position_coid m a = rw (before_first-str m (str a)) (int-str m)

pub master_position_of-order_coid : (m a : ℕ) → master_position_of (some (order_coid m a)) ≡ none
unfolding master_position_of order_coid strip_prefix
master_position_of-order_coid m a = refl

pub extract_master_id-label :
    (n : ℕ) → extract_master_id_from_label (codes "copy:m" ++ str n) ≡ some n
unfolding extract_master_id_from_label strip_prefix
extract_master_id-label n = int-str n

str_injective : (m n : ℕ) → str m ≡ str n → m ≡ n
str_injective m n e = cc (int-str m, int-str n, e)

read_from-dotted : (m a : ℕ) → read_from 0 (str m ++ b'.' ∷ str a) ≡ (m, b'.' ∷ str a)
unfolding read_from
read_from-dotted m a = read_from-str m (b'.' ∷ str a)

dotted_injective :
    (m a m' a' : ℕ) → str m ++ b'.' ∷ str a ≡ str m' ++ b'.' ∷ str a' → (m ≡ m') × (a ≡ a')
dotted_injective m a m' a' e =
    let same : ◌≡◌ {A = ℕ × Text} (m, b'.' ∷ str a) (m', b'.' ∷ str a') =
      sym (read_from-dotted m a) ∙ ap (read_from 0) e ∙ read_from-dotted m' a' in
    let digits : str a ≡ str a' = cc in (cc, str_injective a a' digits)

strip_prefix-append : (p s : Text) → strip_prefix p (p ++ s) ≡ some s
unfolding strip_prefix
strip_prefix-append [] s = refl
strip_prefix-append (c ∷ p) s = ground (arith, strip_prefix-append p s)

-- The suffix comes off again.
pub strip-with_close_suffix : (t : Text) → strip_close_suffix (with_close_suffix t) ≡ some t
unfolding strip_close_suffix with_close_suffix strip_suffix
strip-with_close_suffix t =
    ap (Option.map reverse) (
      ap (strip_prefix (reverse close_suffix)) (reverse-append t close_suffix)
      ∙ strip_prefix-append (reverse close_suffix) (reverse t))
    ∙ ap {B = Option Text} some (reverse-reverse t)

-- An id that ends in a digit has no such suffix.
strip-digit : (front : Text) (d : ℕ) → d < 10 → strip_close_suffix (front ++ (48 + d) ∷ []) ≡ none
unfolding strip_close_suffix strip_suffix
strip-digit front d h = rw (reverse-append front ((48 + d) ∷ [])) (ground arith)

dotted-ends :
    (prefix : Text) (m a : ℕ)
    → (front : Text) × (d : ℕ) × (d < 10)
      × (prefix ++ (str m ++ b'.' ∷ str a) ≡ front ++ (48 + d) ∷ [])
dotted-ends prefix m a =
    let (front, d, small, ends) = str-ends a in
    (
      prefix ++ (str m ++ b'.' ∷ front),
      d,
      small,
      rw (
        ends,
        append_assoc prefix (str m ++ b'.' ∷ front) ((48 + d) ∷ []),
        append_assoc (str m) (b'.' ∷ front) ((48 + d) ∷ []),
      ),
    )

pub strip-position_coid : (m a : ℕ) → strip_close_suffix (position_coid m a) ≡ none
unfolding position_coid
strip-position_coid m a =
    let (front, d, small, ends) = dotted-ends (codes "cm") m a in
    rw ends (strip-digit front d small)

pub strip-order_coid : (m a : ℕ) → strip_close_suffix (order_coid m a) ≡ none
unfolding order_coid
strip-order_coid m a =
    let (front, d, small, ends) = dotted-ends (codes "co") m a in
    rw ends (strip-digit front d small)

position_coid_injective :
    (m a m' a' : ℕ) → position_coid m a ≡ position_coid m' a' → (m ≡ m') × (a ≡ a')
unfolding position_coid
position_coid_injective m a m' a' e = dotted_injective m a m' a' (cc)

order_coid_injective : (m a m' a' : ℕ) → order_coid m a ≡ order_coid m' a' → (m ≡ m') × (a ≡ a')
unfolding order_coid
order_coid_injective m a m' a' e = dotted_injective m a m' a' (cc)

coids-ne : (m a m' a' : ℕ) → position_coid m a ≢ order_coid m' a'
coids-ne m a m' a' e =
    let clash : ◌≡◌ {A = Option ℕ} (some m) none =
      sym (master_position_of-position_coid m a)
      ∙ ap (λ t. master_position_of (some t)) e
      ∙ master_position_of-order_coid m' a' in
    cc

-- What a mapping-creating intent copies: a position or an order of the master's, on an account.
pub data Copy : Type 0 where
  of_position : ℕ → ℕ → Copy
  of_order : ℕ → ℕ → Copy

abbrev pub copy_of : {F : Type 0} → SlaveIntent F → Option Copy
copy_of (open_market i) = some (of_position i.master_position_id i.slave_account_id)
copy_of (place_pending i) = some (of_order i.master_order_id i.slave_account_id)
copy_of _ = none

abbrev pub coid_of : Copy → Text
coid_of (of_position m a) = position_coid m a
coid_of (of_order m a) = order_coid m a

client_order_id_for-coid_of :
    {F : Type 0} (i : SlaveIntent F) → client_order_id_for i ≡ Option.map coid_of (copy_of i)
unfolding client_order_id_for
client_order_id_for-coid_of (open_market i) = refl
client_order_id_for-coid_of _ = refl

strip-coid_of : (c : Copy) → strip_close_suffix (coid_of c) ≡ none
strip-coid_of (of_position m a) = strip-position_coid m a
strip-coid_of (of_order m a) = strip-order_coid m a

coid_of_injective : (c c' : Copy) → coid_of c ≡ coid_of c' → c ≡ c'
coid_of_injective (of_position m a) (of_position m' a') e =
    let (p, q) = position_coid_injective m a m' a' e in cc
coid_of_injective (of_position m a) (of_order m' a') e = absurd (coids-ne m a m' a' e)
coid_of_injective (of_order m a) (of_position m' a') e = absurd (coids-ne m' a' m a (sym e))
coid_of_injective (of_order m a) (of_order m' a') e =
    let (p, q) = order_coid_injective m a m' a' e in cc

identified :
    (c c' : Option Copy) (t : Text)
    → Option.map coid_of c ≡ some t
    → Option.map coid_of c' ≡ some t
    → (c ≡ c') × (strip_close_suffix t ≡ none)
identified none c' t h h' = cc
identified (some c) none t h h' = cc
identified (some c) (some c') t h h' =
    let same = some-injective _ _ h in
    (
      ap {B = Option Copy} some (coid_of_injective c c' (same ∙ sym (some-injective _ _ h'))),
      rw (← same) (strip-coid_of c),
    )

-- Two intents with the same client order id copy the same position or order of the master's onto
-- the same account; and the id is no id of a netting close.
pub client_order_id_for-identifies :
    {F : Type 0} (i j : SlaveIntent F) (t : Text)
    → client_order_id_for i ≡ some t
    → client_order_id_for j ≡ some t
    → (copy_of i ≡ copy_of j) × (strip_close_suffix t ≡ none)
client_order_id_for-identifies i j t hi hj =
    identified (copy_of i) (copy_of j) t (sym (client_order_id_for-coid_of i) ∙ hi)
      (sym (client_order_id_for-coid_of j) ∙ hj)

-- The master's position is read back from the client order id of its copy, and from the id of a
-- netting close of that copy once its suffix is off; the id of a pending copy gives no position.
pub master_position_of-client_order_id_for :
    {F : Type 0} (i : OpenMarket F) (p : PlacePending F)
    → (master_position_of (client_order_id_for (open_market i)) ≡ some i.master_position_id)
      × (master_position_of (client_order_id_for (place_pending p)) ≡ none)
      × ((t : Text)
          → client_order_id_for (open_market i) ≡ some t
          → master_position_of (strip_close_suffix (with_close_suffix t))
            ≡ some i.master_position_id)
unfolding client_order_id_for
master_position_of-client_order_id_for i p = (
  master_position_of-position_coid i.master_position_id i.slave_account_id,
  master_position_of-order_coid p.master_order_id p.slave_account_id,
  λ t e.
      ap master_position_of (strip-with_close_suffix t ∙ sym e)
      ∙ master_position_of-position_coid i.master_position_id i.slave_account_id,
)

-- The label that a decision stamps on a copy names the master's position to the reconciler.
pub extract_master_id-open_for :
    {F : Type 0} (e : MasterPositionOpened F) (s : SlaveConfig) (i : OpenMarket F)
    → open_for e s ≡ some (open_market i)
    → extract_master_id_from_label i.label ≡ some e.position_id
unfolding open_for
extract_master_id-open_for e s i h =
    let labelled : i.label ≡ codes "copy:m" ++ str e.position_id = ground arith in
    rw labelled (extract_master_id-label e.position_id)
