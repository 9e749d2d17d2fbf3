-- ===== src/Core/Client.antt =====
-- `Client` (src/core/client.cc, client.h). Times are seconds since the epoch, never negative.
use residue.Prelude.{
  ℕ, ◌+◌, ◌/◌, ◌≤◌, ◌≡◌, Bool, true, false, [], arith, leb, ◌==◌, if◌then◌else◌, Text,
}

pub record Client : Type 0 where
  pub id : Text
  pub date_created : ℕ
  pub age : ℕ
  pub rsa_public_key : Text
  pub key : Text
  pub key_size : ℕ
  pub token : Text
  pub acknowledged : Bool
  pub is_managed : Bool
  pub backup_key : Text

-- `Client(const ConnectionRequest*)`. The two keys come from `AES::generateKey`; the constructor
-- leaves `m_isManaged` unset, so its value is an argument.
unfoldable pub construct : Text → Text → ℕ → ℕ → Text → Text → Bool → Client
construct client_id rsa_public_key key_size now key token unset = record {
  id = client_id;
  date_created = now;
  age = 0;
  rsa_public_key = rsa_public_key;
  key = key;
  key_size = key_size / 8;
  token = token;
  acknowledged = false;
  is_managed = unset;
  backup_key = [];
}

-- `isAlive(compareTo)` at the time `now`: a comparison time of 0 means the present, an age of 0 a
-- client that never dies.
unfoldable pub is_alive : Client → ℕ → ℕ → Bool
is_alive c now compare_to =
    if c.age == 0
    then true
    else leb (if compare_to == 0 then now else compare_to) (c.date_created + c.age)

-- Time only kills: a client alive at a later moment was alive before.
pub is_alive_down :
    (c : Client) (now later : ℕ) → now ≤ later → is_alive c later 0 ≡ true → is_alive c now 0 ≡ true
unfolding is_alive
is_alive_down c now later h a = ground arith
