-- ===== src/Crypto/Budget.antt =====
-- packages/crypto/index.mjs: the budget of nonces of a key. A process reserves windows of encryptions in
-- the key file before it uses them. `writable` says whether the write to the file succeeds.
use haechi.Prelude.{
  ℕ, ◌+◌, ◌-◌, min, Bool, true, false, not, ◌&&◌, ◌||◌, Option, none, some, List, [], ◌∷◌, leb,
  if◌then◌else◌, or_default, Text, text_eq, Result, ok, err,
}
use haechi.Crypto.{
  KeyEntry, CryptoError, limit_reached, missing_key, max_encryptions_per_key, nonce_warn_threshold,
  nonce_reserve_window, find_entry, rotated_keys,
}

pub record Reservation : Type 0 where
  pub kid : Text
  pub base : ℕ
  pub granted : ℕ
  pub used : ℕ

pub record Budget : Type 0 where
  pub keys : List KeyEntry
  pub reservation : Option Reservation
  pub nonce_warned : Bool
  pub persist_disabled : Bool

-- A process that has just been started.
abbrev pub started : List KeyEntry → Budget
started keys = record {
  keys = keys;
  reservation = none;
  nonce_warned = false;
  persist_disabled = false;
}

-- `entry.usage = usage` on the entry that `find` gives.
unfoldable pub set_usage : Text → ℕ → List KeyEntry → List KeyEntry
unfolding text_eq
set_usage kid usage [] = []
set_usage kid usage (e ∷ es) =
    let rest = set_usage kid usage es in
    if text_eq e.kid kid then record e { usage = some usage } ∷ es else e ∷ rest

-- Where the next window starts, and whether the file's entry was read for it.
pub record Current : Type 0 where
  pub start : ℕ
  pub from_file : Bool

abbrev pub current_in_file : Text → Option KeyEntry → Result CryptoError Current
current_in_file kid none = err (missing_key kid)
current_in_file kid (some e) = ok record { start = or_default e.usage 0; from_file = true }

unfoldable pub current_of : Text → Option Reservation → Budget → Result CryptoError Current
unfolding find_entry text_eq
current_of kid none st = current_in_file kid (find_entry kid st.keys)
current_of kid (some r) st =
    if st.persist_disabled && text_eq r.kid kid
    then ok record { start = r.base + r.granted; from_file = false }
    else current_in_file kid (find_entry kid st.keys)

-- The first part of `reserveNonceWindow`, up to the answer of the read.
unfoldable pub read_current : Text → Budget → Result CryptoError Current
unfolding current_of
read_current kid st = current_of kid st.reservation st

abbrev pub granted_from : ℕ → ℕ
granted_from start = min nonce_reserve_window (max_encryptions_per_key - start)

unfoldable pub persisted : Text → Bool → Current → Budget → Budget
unfolding set_usage
persisted kid writable c st =
    if not st.persist_disabled && c.from_file
    then (if writable
        then record st { keys = set_usage kid (c.start + granted_from c.start) st.keys }
        else record st { persist_disabled = true })
    else st

-- The rest of `reserveNonceWindow`: the write and the reservation.
unfoldable pub reserve_from :
    Text → Bool → Result CryptoError Current → Budget → Option CryptoError × Budget
unfolding persisted
reserve_from kid writable (err e) st = (some e, st)
reserve_from kid writable (ok c) st =
    if leb max_encryptions_per_key c.start then (some limit_reached, st) else (
      none,
      record (persisted kid writable c st) {
        reservation =
            some record { kid = kid; base = c.start; granted = granted_from c.start; used = 0 };
      },
    )

unfoldable pub reserve_nonce_window : Text → Bool → Budget → Option CryptoError × Budget
unfolding read_current reserve_from
reserve_nonce_window kid writable st = reserve_from kid writable (read_current kid st) st

unfoldable pub needs_window : Text → Option Reservation → Bool
unfolding text_eq
needs_window kid none = true
needs_window kid (some r) = not (text_eq r.kid kid) || leb r.granted r.used

abbrev pub account_in : Option Reservation → Budget → Bool × Budget
account_in none st = (false, st)
account_in (some r) st = if leb max_encryptions_per_key (r.base + r.used) then (false, st) else (
  true,
  record st {
    reservation = some (record r { used = r.used + 1 });
    nonce_warned = st.nonce_warned || leb nonce_warn_threshold (r.base + r.used);
  },
)

-- The rest of `consumeNonceBudget` once a window is there: whether the encryption may go on.
unfoldable pub account : Option CryptoError × Budget → Bool × Budget
account (some e, st) = (false, st)
account (none, st) = account_in st.reservation st

unfoldable pub consume_nonce_budget : Text → Bool → Budget → Bool × Budget
unfolding reserve_nonce_window account needs_window
consume_nonce_budget kid writable st =
    account
      (if needs_window kid st.reservation then reserve_nonce_window kid writable st else (none, st))

-- What happens to a key file: an encryption in the process that uses it, a new process, and a rotation
-- by `haechi init --force` while the process runs on.
pub data Event : Type 0 where
  encrypting : Text → Bool → Event
  restarting : Event
  rotating : KeyEntry → Event

unfoldable pub step : Event → Budget → Budget
unfolding consume_nonce_budget rotated_keys
step (encrypting kid writable) st = (consume_nonce_budget kid writable st).1
step restarting st = started st.keys
step (rotating new) st = record st { keys = rotated_keys new st.keys }

unfoldable pub counts : Text → Event → Budget → Bool
unfolding consume_nonce_budget text_eq
counts kid (encrypting other writable) st =
    text_eq other kid && (consume_nonce_budget other writable st).0
counts kid restarting st = false
counts kid (rotating new) st = false

-- How many encryptions go on under a key.
unfoldable pub encryptions : Text → List Event → Budget → ℕ
unfolding step counts
encryptions kid [] st = 0
encryptions kid (e ∷ es) st =
    let rest = encryptions kid es (step e st) in if counts kid e st then 1 + rest else rest
