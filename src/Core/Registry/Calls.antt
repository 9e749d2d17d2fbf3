-- ===== src/Core/Registry/Calls.antt =====
-- Sequences of calls of `Registry` (src/core/registry.cc, registry.h): its clients and its byte
-- counters.
use residue.Core.Client.{Client}
use residue.Core.Registry.{
  Registry, initial, add_client, update_client, remove_client, join, leave, add_bytes_received,
  add_bytes_sent, add_log_rotator, reset,
}
use residue.Core.Registry.Clients.{
  IsWellFormed, add_client-IsWellFormed, update_client-IsWellFormed, remove_client-IsWellFormed,
}
use residue.Utils.BigAdd.{big_add, to_string}
use residue.Utils.BigAdd.Value.{IsDigit, value}
use residue.Utils.BigAdd.Sum.{value-big_add, value-to_string, to_string_digits}
use residue.Prelude.{
  ℕ, ◌+◌, ◌≡◌, refl, sym, subst, Option, none, some, List, [], ◌∷◌, arith, All, Text, codes,
}

pub data Call : Type 0 where
  adds updates : Client → Call
  removes : Option Client → Call
  joins : Text → ℕ → Call
  leaves : Text → Call
  receives sends rotates : ℕ → Call
  resets : Call

pub step : Registry → Call → Registry
step r (adds c) = (add_client r c).0
step r (updates c) = (update_client r c).0
step r (removes o) = remove_client r o
step r (joins s now) = join r s now
step r (leaves s) = leave r s
step r (receives v) = add_bytes_received r v
step r (sends v) = add_bytes_sent r v
step r (rotates x) = add_log_rotator r x
step r resets = (reset {S = Unit {0}} (λ s. s) (tt, r)).1

pub run : Registry → List Call → Registry
run r [] = r
run r (c ∷ cs) = run (step r c) cs

-- The bytes reported since the last reset, on top of `n`.
abbrev pub received : ℕ → List Call → ℕ
received n [] = n
received n (receives v ∷ cs) = received (n + v) cs
received n (resets ∷ cs) = received 0 cs
received n (c ∷ cs) = received n cs

abbrev pub sent : ℕ → List Call → ℕ
sent n [] = n
sent n (sends v ∷ cs) = sent (n + v) cs
sent n (resets ∷ cs) = sent 0 cs
sent n (c ∷ cs) = sent n cs

pub record IsCounter (s : Text) (n : ℕ) : Type 0 where
  pub digits : All IsDigit s
  pub exact : value s ≡ n

pub record Inv (r : Registry) (bytes_in bytes_out : ℕ) : Type 0 where
  pub clients : IsWellFormed r.clients
  pub counted_in : IsCounter r.bytes_received bytes_in
  pub counted_out : IsCounter r.bytes_sent bytes_out

zero-IsCounter : IsCounter (codes "0") 0
unfolding value
zero-IsCounter = record { digits = omega arith; exact = refl }

initial-Inv : Inv initial 0 0
initial-Inv = record {
  clients = record { unique = tt; keyed = tt };
  counted_in = zero-IsCounter;
  counted_out = zero-IsCounter;
}

IsCounter-add : (s : Text) (n v : ℕ) → IsCounter s n → IsCounter (big_add s (to_string v)) (n + v)
IsCounter-add s n v c =
    let sum = value-big_add s (to_string v) c.digits (to_string_digits v) in
    record { digits = sum.1; exact = omega (arith, sum.0, value-to_string v, c.exact) }

-- What the calls that do not count bytes leave alone.
abbrev SameCounters : Registry → Registry → Type 0
SameCounters r q = (q.bytes_received ≡ r.bytes_received) × (q.bytes_sent ≡ r.bytes_sent)

Inv-same :
    (r q : Registry) (n m : ℕ) → IsWellFormed q.clients → SameCounters r q → Inv r n m → Inv q n m
Inv-same r q n m w same i = record {
  clients = w;
  counted_in = subst (λ s. IsCounter s n) (sym same.0) i.counted_in;
  counted_out = subst (λ s. IsCounter s m) (sym same.1) i.counted_out;
}

-- A call keeps the invariant, with the counters that the call makes of them.
step-Inv :
    (c : Call) (r : Registry) (n m : ℕ)
    → Inv r n m
    → Inv (step r c) (received n (c ∷ [])) (sent m (c ∷ []))
unfolding step add_client update_client remove_client join leave add_log_rotator reset
    add_bytes_received add_bytes_sent
step-Inv (adds c) r n m i =
    Inv-same r _ n m (add_client-IsWellFormed r c i.clients) (ground arith) i
step-Inv (updates c) r n m i =
    Inv-same r _ n m (update_client-IsWellFormed r c i.clients) (ground arith) i
step-Inv (removes none) r n m i = i
step-Inv (removes (some c)) r n m i =
    Inv-same r _ n m (remove_client-IsWellFormed r (some c) i.clients) (refl, refl) i
step-Inv (joins s now) r n m i = Inv-same r _ n m i.clients (refl, refl) i
step-Inv (leaves s) r n m i = Inv-same r _ n m i.clients (refl, refl) i
step-Inv (receives v) r n m i = record {
  clients = i.clients;
  counted_in = IsCounter-add r.bytes_received n v i.counted_in;
  counted_out = i.counted_out;
}
step-Inv (sends v) r n m i = record {
  clients = i.clients;
  counted_in = i.counted_in;
  counted_out = IsCounter-add r.bytes_sent m v i.counted_out;
}
step-Inv (rotates x) r n m i = Inv-same r _ n m (ground arith) (ground arith) i
step-Inv resets r n m i = initial-Inv'
  where
    initial-Inv' : Inv (reset {S = Unit {0}} (λ s. s) (tt, r)).1 0 0
    initial-Inv' = record {
      clients = record { unique = tt; keyed = tt };
      counted_in = zero-IsCounter;
      counted_out = zero-IsCounter;
    }

received-cons :
    (c : Call) (cs : List Call) (n : ℕ) → received n (c ∷ cs) ≡ received (received n (c ∷ [])) cs
received-cons (receives v) cs n = refl
received-cons resets cs n = refl
received-cons _ cs n = refl

sent-cons : (c : Call) (cs : List Call) (n : ℕ) → sent n (c ∷ cs) ≡ sent (sent n (c ∷ [])) cs
sent-cons (sends v) cs n = refl
sent-cons resets cs n = refl
sent-cons _ cs n = refl

run-Inv :
    (cs : List Call) (r : Registry) (n m : ℕ)
    → Inv r n m
    → Inv (run r cs) (received n cs) (sent m cs)
unfolding run
run-Inv [] r n m i = i
run-Inv (c ∷ cs) r n m i =
    rw (received-cons c cs n, sent-cons c cs m) (run-Inv cs (step r c) _ _ (step-Inv c r n m i))

-- After any calls on a new registry, no client is stored twice or under another id, and the two
-- byte counters are decimal numerals of the bytes reported since the last reset.
pub run-initial-Inv : (cs : List Call) → Inv (run initial cs) (received 0 cs) (sent 0 cs)
run-initial-Inv cs = run-Inv cs initial 0 0 initial-Inv
