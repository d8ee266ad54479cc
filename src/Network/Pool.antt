-- ===== src/Network/Pool.antt =====
-- The pool of free ports of evmd/tests/network/network.go, a channel that the steps of `New` draw
-- from, and how those steps end.
use mathlib.Core.Path.{subst}
use mathlib.Core.List.{append_assoc}
use zk_cosmos_eth_bridge.Common.{
  ◌≡◌, refl, ap, sym, ◌∙◌, Bool, true, false, Option, none, some, List, [], ◌∷◌, ◌++◌, Bytes,
  Outcome, ok, err, panic,
}

pub data NewError : Type 0 where
  no_api_port no_rpc_port no_grpc_port no_json_rpc_port no_proxy_port bad_address dir_not_made
        node_files_failed keyring_failed seed_not_written message_failed not_signed
        gentx_not_written config_not_read genesis_failed collect_failed start_failed :
      NewError

-- A step that may draw ports: what it gives, and the ports that are left.
abbrev pub Drawing : Type 0 → Type 0
Drawing A = List Bytes → Outcome NewError A × List Bytes

abbrev pub and_then :
    {A B : Type 0}
    → Outcome NewError A × List Bytes
    → (A → Drawing B)
    → Outcome NewError B × List Bytes
and_then (ok a, pool) f = f a pool
and_then (err e, pool) f = (err e, pool)
and_then (panic, pool) f = (panic, pool)

infixl 5 ◌>>=◌ ◌>>◌
abbrev pub ◌>>=◌ : {A B : Type 0} → Drawing A → (A → Drawing B) → Drawing B
◌>>=◌ m f pool = and_then (m pool) f

abbrev pub ◌>>◌ : {B : Type 0} → Drawing (Unit {0}) → Drawing B → Drawing B
m >> k = m >>= λ _. k

-- A step that draws no port.
abbrev pub lift : {A : Type 0} → Outcome NewError A → Drawing A
lift o pool = (o, pool)

abbrev pub pure : {A : Type 0} → A → Drawing A
pure a pool = (ok a, pool)

-- `if len(portPool) == 0 { return nil, ... }; port := <-portPool`
abbrev pub take_port : NewError → Drawing Bytes
take_port e [] = (err e, [])
take_port e (port ∷ pool) = (ok port, pool)

abbrev pub check : Bool → NewError → Drawing (Unit {0})
check true e pool = (ok tt, pool)
check false e pool = (err e, pool)

abbrev pub given : {A : Type 0} → Option A → NewError → Drawing A
given none e pool = (err e, pool)
given (some a) e pool = (ok a, pool)

-- What a step of a chain that gives a value did.
bind-eq-ok :
    {A B : Type 0} (m : Drawing A) (f : A → Drawing B) (pool : List Bytes) {b : B}
    {rest : List Bytes}
    → (m >>= f) pool ≡ (ok b, rest)
    → (a : A) × (left : List Bytes) × (m pool ≡ (ok a, left)) × (f a left ≡ (ok b, rest))
bind-eq-ok {A} {B} m f pool {b} {rest} h = split (m pool) refl h
  where
    split :
        (r : Outcome NewError A × List Bytes)
        → m pool ≡ r
        → and_then r f ≡ (ok b, rest)
        → (a : A) × (left : List Bytes) × (m pool ≡ (ok a, left)) × (f a left ≡ (ok b, rest))
    split (ok a, left) e k = (a, left, e, k)
    split (err x, left) e k = cc
    split (panic, left) e k = cc

-- Where the step gives a value, it draws ports from the front of the pool, and the value and these
-- ports stand in the relation.
pub record Gives {A : Type 0} (m : Drawing A) (R : List Bytes → A → Type 0) : Type 0 where
  pub apply :
      (pool : List Bytes) (a : A) (rest : List Bytes)
      → m pool ≡ (ok a, rest)
      → (drawn : List Bytes) × (pool ≡ drawn ++ rest) × R drawn a

pub Gives-bind :
    {A B : Type 0} {m : Drawing A} {f : A → Drawing B} {P : List Bytes → A → Type 0}
    {R : List Bytes → B → Type 0}
    → Gives m P
    → ((a : A) (drawn : List Bytes) → P drawn a → Gives (f a) (λ more b. R (drawn ++ more) b))
    → Gives (m >>= f) R
Gives-bind {m = m} {f = f} g k = record {
  apply = λ pool b rest h.
      let (a, left, e, h1) = bind-eq-ok m f pool h in
      let (drawn, whole, p) = g.apply pool a left e in
      let (more, whole', r) = (k a drawn p).apply left b rest h1 in
      (drawn ++ more, whole ∙ ap (λ t. drawn ++ t) whole' ∙ sym (append_assoc drawn more rest), r);
}

pub Gives-pure : {A : Type 0} (a : A) {R : List Bytes → A → Type 0} → R [] a → Gives (pure a) R
Gives-pure a {R} r = record {
  apply = λ pool b rest h.
      let same : a ≡ b = cc in
      let same_pool : pool ≡ rest = cc in ([], same_pool, subst (R []) same r);
}

-- Where the step gives a value, it draws no port, and the value has the property.
pub record IsStill {A : Type 0} (m : Drawing A) (P : A → Type 0) : Type 0 where
  pub apply :
      (pool : List Bytes) (a : A) (rest : List Bytes) → m pool ≡ (ok a, rest) → (pool ≡ rest) × P a

pub Gives-after :
    {A B : Type 0} {m : Drawing A} {f : A → Drawing B} {P : A → Type 0}
    {R : List Bytes → B → Type 0}
    → IsStill m P
    → ((a : A) → P a → Gives (f a) R)
    → Gives (m >>= f) R
Gives-after {m = m} {f = f} still k = record {
  apply = λ pool b rest h.
      let (a, left, e, h1) = bind-eq-ok m f pool h in
      let (same, p) = still.apply pool a left e in
      let (drawn, whole, r) = (k a p).apply left b rest h1 in (drawn, same ∙ whole, r);
}

pub check-IsStill : (b : Bool) (e : NewError) → IsStill (check b e) (λ u. Unit {0})
check-IsStill true e = record { apply = λ pool u rest h. let same : pool ≡ rest = cc in (same, tt) }
check-IsStill false e = record { apply = λ pool u rest h. cc }

pub given-IsStill :
    {A : Type 0} (o : Option A) (e : NewError) → IsStill (given o e) (λ a. o ≡ some a)
given-IsStill none e = record { apply = λ pool a rest h. cc }
given-IsStill (some a) e = record {
  apply = λ pool b rest h.
      let same : pool ≡ rest = cc in let same_a : some a ≡ some b = cc in (same, same_a);
}

pub lift-IsStill : {A : Type 0} (o : Outcome NewError A) → IsStill (lift o) (λ a. o ≡ ok a)
lift-IsStill o = record {
  apply =
      λ pool a rest h. let same : pool ≡ rest = cc in let same_o : o ≡ ok a = cc in (same, same_o);
}

pub Gives-take_port : (e : NewError) → Gives (take_port e) (λ drawn port. drawn ≡ port ∷ [])
Gives-take_port e = record { apply = took }
  where
    took :
        (pool : List Bytes) (port : Bytes) (rest : List Bytes)
        → take_port e pool ≡ (ok port, rest)
        → (drawn : List Bytes) × (pool ≡ drawn ++ rest) × (drawn ≡ port ∷ [])
    took [] port rest h = cc
    took (p ∷ pool) port rest h =
        let same : pool ≡ rest = cc in
        let same_p : p ≡ port = cc in (p ∷ [], ap (λ t. p ∷ t) same, ap (λ t. t ∷ []) same_p)

pub Gives-take :
    {B : Type 0} {f : Bytes → Drawing B} {R : List Bytes → B → Type 0} (e : NewError)
    → ((port : Bytes) → Gives (f port) (λ more b. R (port ∷ more) b))
    → Gives (take_port e >>= f) R
Gives-take {B} {f} {R} e k = record { apply = took }
  where
    took :
        (pool : List Bytes) (b : B) (rest : List Bytes)
        → (take_port e >>= f) pool ≡ (ok b, rest)
        → (drawn : List Bytes) × (pool ≡ drawn ++ rest) × R drawn b
    took [] b rest h = cc
    took (port ∷ pool) b rest h =
        let (more, whole, r) = (k port).apply pool b rest h in
        (port ∷ more, ap (λ t. port ∷ t) whole, r)
