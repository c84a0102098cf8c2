-- ===== src/Carriers.antt =====
-- oteltrpc/traces/supplier.go: the carriers by which trace contexts cross calls. The headers of tRPC's
-- HTTP and the carriers that users register are parameters; those read and write what the supplier does,
-- since they are made from the same metadata and message. Values are text.
mod Tests
use go_opentelemetry.Prelude.{
  ℕ, zero, suc, ◌+◌, Bool, true, false, Option, none, some, String, List, [], ◌∷◌, ◌++◌, Map, get,
  put, get-put, str_eq, eq_iff, if◌then◌else◌, ◌≡◌, ◌≢◌, refl, arith, not, Bool-cases, inl, inr,
  ◌>>=◌, ap, ◌∙◌,
}

-- What all carriers of a call share: the metadata, `none` for a nil map, `Get` of the server's header, if
-- there is one, and what has been added to the client's header, if there is one.
pub record Shared : Type 0 where
  pub md : Option (Map String)
  pub server_header : Option (String → String)
  pub client_header : Option (List (String × String))

-- `supplier`, with the keys set. The rest of it is shared.
pub record Supplier : Type 0 where
  pub shared : Shared
  pub keys : List String

-- `newSupplier`
unfoldable pub new_supplier : Shared → Supplier
new_supplier shared = record { shared = shared; keys = [] }

abbrev pub value_of : Option String → String
value_of none = ""
value_of (some v) = v

abbrev pub from_header : Option (String → String) → String → String
from_header none key = ""
from_header (some h) key = h key

-- A key of a map, which may be nil.
abbrev pub md_get : String → Option (Map String) → Option String
md_get key none = none
md_get key (some md) = get key md

-- `supplier.Get`
unfoldable pub supplier_get : Supplier → String → String
supplier_get s key =
    let value = value_of (md_get key s.shared.md) in
    if str_eq value "" then from_header s.shared.server_header key else value

abbrev pub add_header :
    Option (List (String × String)) → String → String → Option (List (String × String))
add_header none key value = none
add_header (some h) key value = some (h ++ (key, value) ∷ [])

-- `supplier.Set`; `none` is the panic of an assignment to a nil map.
abbrev pub set_at : Option (Map String) → String → String → Supplier → Option Supplier
set_at none key value s = none
set_at (some md) key value s = some (record {
  shared = record {
    md = some (put key value md);
    server_header = s.shared.server_header;
    client_header = add_header s.shared.client_header key value;
  };
  keys = s.keys ++ key ∷ [];
})

unfoldable pub supplier_set : String → String → Supplier → Option Supplier
supplier_set key value s = set_at s.shared.md key value s

abbrev pub contains : String → List String → Bool
contains k [] = false
contains k (j ∷ js) = if str_eq j k then true else contains k js

-- The loops of `Keys`, for all keys in turn; `seen` has the keys of its map.
unfoldable pub distinct : List String → List String → List String
distinct seen [] = []
distinct seen (k ∷ ks) =
    let rest = distinct (k ∷ seen) ks in
    let same = distinct seen ks in if contains k seen then same else k ∷ rest

-- The registered carriers that are not nil, by the three operations of their interface: each has a state
-- of its own beside what is shared; `none` is a panic of its `Set`.
module _ {S : Type 0} (other_get : S → Shared → String → String)
    (other_set : String → String → S → Shared → Option (S × Shared))
    (other_keys : S → Shared → List String) where
  abbrev pub others_get : List S → Shared → String → String
  others_get [] w key = ""
  others_get (c ∷ cs) w key =
      let rest = others_get cs w key in
      if str_eq (other_get c w key) "" then rest else other_get c w key

  -- `compositeTextMapCarrier.Get`, of a supplier and what follows it.
  unfoldable pub composite_get : Supplier × List S → String → String
  composite_get (s, cs) key =
      if str_eq (supplier_get s key) "" then others_get cs s.shared key else supplier_get s key

  unfoldable pub others_set : String → String → List S → Shared → Option (List S × Shared)
  others_set key value [] w = some ([], w)
  others_set key value (c ∷ cs) w =
      other_set key value c w >>= λ t. others_set key value cs t.1 >>= λ u. some (t.0 ∷ u.0, u.1)

  -- `compositeTextMapCarrier.Set`
  unfoldable pub composite_set : String → String → Supplier × List S → Option (Supplier × List S)
  composite_set key value (s, cs) = supplier_set key value s >>= λ u.
      others_set key value cs u.shared >>= λ t. some (record u { shared = t.1 }, t.0)

  abbrev pub all_keys : List S → Shared → List String
  all_keys [] w = []
  all_keys (c ∷ cs) w = other_keys c w ++ all_keys cs w

  -- `compositeTextMapCarrier.Keys`
  unfoldable pub composite_keys : Supplier × List S → List String
  composite_keys (s, cs) = distinct [] (s.keys ++ all_keys cs s.shared)

abbrev pub with_carrier : {S : Type 0} → Option S → List S → List S
with_carrier none cs = cs
with_carrier (some c) cs = c ∷ cs

-- The loop of `GetTextMapCarriers` over the registered functions, which get the metadata and the message
-- and may change them; `none` is nil.
unfoldable pub make_carriers :
    {S : Type 0} → List (Shared → Option S × Shared) → Shared → List S × Shared
make_carriers [] w = ([], w)
make_carriers (r ∷ rs) w = let (cs, x) = make_carriers rs (r w).1 in (with_carrier (r w).0 cs, x)

-- `GetTextMapCarriers`
unfoldable pub get_text_map_carriers :
    {S : Type 0} → List (Shared → Option S × Shared) → Shared → Supplier × List S
get_text_map_carriers rs w = let (cs, x) = make_carriers rs w in (new_supplier x, cs)

-- How often a key is listed.
abbrev pub occurrences : String → List String → ℕ
occurrences k [] = 0
occurrences k (j ∷ js) = if str_eq j k then suc (occurrences k js) else occurrences k js

occurrences-distinct :
    (k : String) (seen ks : List String)
    → occurrences k (distinct seen ks)
      ≡ (if contains k seen then 0 else (if contains k ks then 1 else 0))
unfolding distinct
occurrences-distinct k seen [] = ground arith
occurrences-distinct k seen (j ∷ js) =
    ground (arith, eq_iff j k, occurrences-distinct k (j ∷ seen) js, occurrences-distinct k seen js)

contains-append :
    (k : String) (xs ys : List String)
    → contains k (xs ++ ys) ≡ (if contains k xs then true else contains k ys)
contains-append k [] ys = refl
contains-append k (x ∷ xs) ys = ground (arith, contains-append k xs ys)

keys_lem :
    (keys : List String) (key : String) (more : List String)
    → occurrences key (distinct [] ((keys ++ key ∷ []) ++ more)) ≡ 1
keys_lem keys key more = ground (
  arith,
  occurrences-distinct key [] ((keys ++ key ∷ []) ++ more),
  contains-append key (keys ++ key ∷ []) more,
  contains-append key keys (key ∷ []),
  eq_iff key key,
)

-- What a supplier reads of a key is as before.
abbrev pub SameAt : String → Shared → Shared → Type 0
SameAt key w x = (md_get key x.md ≡ md_get key w.md) × (x.server_header ≡ w.server_header)

-- The supplier's write, of which the carriers behind it leave two keys alone.
record Written (key value j : String) (s : Supplier) (u : Supplier) : Type 0 where
  sets : supplier_set key value s ≡ some u
  at_key : md_get key u.shared.md ≡ some value
  at_other : md_get j u.shared.md ≡ md_get j s.shared.md
  header : u.shared.server_header ≡ s.shared.server_header
  lists : u.keys ≡ s.keys ++ key ∷ []

supplier_set-Written :
    (key value j : String) (s : Supplier) (md : Map String)
    → s.shared.md ≡ some md
    → key ≢ j
    → (u : Supplier) × Written key value j s u
unfolding supplier_set
supplier_set-Written key value j s md h n = (
  record {
    shared = record {
      md = some (put key value md);
      server_header = s.shared.server_header;
      client_header = add_header s.shared.client_header key value;
    };
    keys = s.keys ++ key ∷ [];
  },
  record {
    sets = ap (λ o. set_at o key value s) h;
    at_key = ground (arith, get-put key key value md, eq_iff key key);
    at_other = rw h (ground (arith, get-put key j value md, eq_iff key j));
    header = refl;
    lists = refl;
  },
)

supplier_get-same :
    (s t : Supplier) (j : String)
    → md_get j t.shared.md ≡ md_get j s.shared.md
    → t.shared.server_header ≡ s.shared.server_header
    → supplier_get t j ≡ supplier_get s j
unfolding supplier_get
supplier_get-same s t j h k = rw (h, k) refl

supplier_get-value :
    (s : Supplier) (key value : String)
    → value ≢ ""
    → md_get key s.shared.md ≡ some value
    → supplier_get s key ≡ value
unfolding supplier_get
supplier_get-value s key value v h = rw h (ground (arith, eq_iff value ""))

module _ {S : Type 0} (other_get : S → Shared → String → String)
    (other_set : String → String → S → Shared → Option (S × Shared))
    (other_keys : S → Shared → List String) where
  composite_lem :
      (s : Supplier) (cs : List S) (key value : String)
      → value ≢ ""
      → supplier_get s key ≡ value
      → composite_get other_get other_set other_keys (s, cs) key ≡ value
  unfolding composite_get
  composite_lem s cs key value v h = ground (arith, h, eq_iff value "")

  module _ (key value j : String)
      (quiet : (c : S) (w : Shared)
        → (d : S) × (x : Shared) × (other_set key value c w ≡ some (d, x))
          × SameAt key w x
          × SameAt j w x) where
    others_set-SameAt :
        (cs : List S) (w : Shared)
        → (ds : List S) × (x : Shared) × (others_set other_get other_set other_keys key value cs w
            ≡ some (ds, x))
          × SameAt key w x
          × SameAt j w x
    unfolding others_set
    others_set-SameAt [] w = ([], w, refl, (refl, refl), (refl, refl))
    others_set-SameAt (c ∷ cs) w =
        let (d, x, e, (a, b), (a', b')) = quiet c w in
        let (ds, y, f, (p, q), (p', q')) = others_set-SameAt cs x in
        (d ∷ ds, y, rw (e, f) refl, (p ∙ a, q ∙ b), (p' ∙ a', q' ∙ b'))

  -- With metadata that are not nil, and registered carriers whose `Set` of this key and value returns and
  -- changes neither what the metadata have for the key and for another key `j`, nor the server's header: a
  -- value that is not empty is set under the key without a panic, it is what the composite then gives for
  -- the key, the supplier gives for `j` what it has given before, and the key is listed once.
  pub set_then_get :
      (t : Supplier × List S) (md : Map String) (key value j : String)
      → t.0.shared.md ≡ some md
      → value ≢ ""
      → key ≢ j
      → ((c : S) (w : Shared)
          → (d : S) × (x : Shared) × (other_set key value c w ≡ some (d, x))
            × SameAt key w x
            × SameAt j w x)
      → (u : Supplier × List S) × (composite_set other_get other_set other_keys key value t
          ≡ some u)
        × (composite_get other_get other_set other_keys u key ≡ value)
        × (supplier_get u.0 j ≡ supplier_get t.0 j)
        × (occurrences key (composite_keys other_get other_set other_keys u) ≡ 1)
  unfolding composite_set composite_keys
  set_then_get (s, cs) md key value j m v n quiet =
      let (u, w) = supplier_set-Written key value j s md m n in
      let (ds, x, e, (a, b), (a', b')) = others_set-SameAt key value j quiet cs u.shared in
      let q : Supplier = record u { shared = x } in
      (
        (q, ds),
        rw (w.sets, e) refl,
        composite_lem q ds key value v (supplier_get-value q key value v (a ∙ w.at_key)),
        supplier_get-same s q j (a' ∙ w.at_other) (b' ∙ w.header),
        rw w.lists (keys_lem s.keys key (all_keys other_get other_set other_keys ds x)),
      )
