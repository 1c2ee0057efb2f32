-- ===== src/ExecutorMeta/Interfaces.antt =====
-- common/src/executor_meta.rs: the information about the system, as tags.
use funtonic.Base.{
  String, ◌≡◌, sym, Bool, true, false, ◌&&◌, ◌==◌, Option, none, some, List, [], ◌∷◌, ◌++◌,
  if◌then◌else◌, Bool-cases, inl, inr, arith, eq_iff,
}
use mathlib.Core.List.{append_assoc, append-nil}
use funtonic.Base.HashMap
use funtonic.Base.HashMap.{HashMap}
use funtonic.ExecutorMeta.{Tag, TagMap, TagList}
use funtonic.ExecutorMeta.Addresses.{Ipv4, if_type, show_ip}

-- `Ifv4Addr`, `IfAddr` and `Interface` of get_if_addrs, as far as they are read.
pub record IfV4Addr : Type 0 where
  pub ip : Ipv4
  pub netmask : Ipv4
  pub broadcast : Option Ipv4

pub data IfAddr : Type 0 where
  v4 : IfV4Addr → IfAddr
  v6 : IfAddr

pub record Interface : Type 0 where
  pub name : String
  pub addr : IfAddr

-- `os_info::Info`, by the texts of its type and of its version.
pub record Info : Type 0 where
  pub os_type : String
  pub version : String

unfoldable pub address : IfV4Addr → HashMap String
unfolding show_ip HashMap.insert
address ip =
    let addr =
      HashMap.insert "netmask" (show_ip ip.netmask) (HashMap.insert "ip" (show_ip ip.ip) []) in
    elim ip.broadcast [
      | none ↦ addr
      | some broadcast ↦ HashMap.insert "broadcast" (show_ip broadcast) addr
    ]

-- The value under a key, `or_insert` what is empty.
unfoldable pub entry_or_empty {ℓ} : {A : Type ℓ} → String → HashMap (List A) → List A
unfolding HashMap.get
entry_or_empty k m = elim (HashMap.get k m) [ none ↦ [] | some v ↦ v ]

-- Addresses by the name of their interface, and these by the type of the address.
abbrev pub Addresses : Type 0
Addresses = HashMap (HashMap (List (HashMap String)))

unfoldable pub add_address : String → String → HashMap String → Addresses → Addresses
unfolding entry_or_empty HashMap.insert
add_address type_name name addr interfaces =
    let if_list = entry_or_empty type_name interfaces in
    HashMap.insert type_name
      (HashMap.insert name (entry_or_empty name if_list ++ addr ∷ []) if_list) interfaces

unfoldable pub add_interface : Addresses → Interface → Addresses
unfolding add_address if_type address
add_interface interfaces interface = elim interface.addr [
  | v4 ip ↦ add_address (if_type ip.ip interface.name) interface.name (address ip) interfaces
  | v6 ↦ interfaces
]

unfoldable pub collect : Addresses → List Interface → Addresses
unfolding add_interface
collect found [] = found
collect found (interface ∷ more) = collect (add_interface found interface) more

-- `impl From<HashMap<S, T>> for Tag` and `impl From<Vec<T>> for Tag`
unfoldable pub map_of {ℓ} : {A : Type ℓ} → (A → Tag) → HashMap A → TagMap
map_of f [] = TagMap.empty
map_of f ((key, value) ∷ m) = TagMap.entry key (f value) (map_of f m)

unfoldable pub list_of {ℓ} : {A : Type ℓ} → (A → Tag) → List A → TagList
list_of f [] = TagList.nil
list_of f (value ∷ list) = TagList.cons (f value) (list_of f list)

unfoldable pub tag_of_interfaces : List Interface → Tag
unfolding collect map_of list_of
tag_of_interfaces interfaces = Tag.map (
    map_of
      (λ if_list. Tag.map (
        map_of (λ addrs. Tag.list (list_of (λ addr. Tag.map (map_of Tag.value addr)) addrs))
          if_list))
      (collect [] interfaces))

unfoldable pub tag_of_info : Info → Tag
unfolding map_of HashMap.insert
tag_of_info info = Tag.map (
    map_of Tag.value
      (HashMap.insert "version" info.version (HashMap.insert "type" info.os_type [])))

-- The addresses of one type under one name.
unfoldable pub addresses : String → String → Addresses → List (HashMap String)
unfolding entry_or_empty
addresses type_name name found = entry_or_empty name (entry_or_empty type_name found)

abbrev pub selected : Bool → HashMap String → List (HashMap String)
selected true addr = addr ∷ []
selected false addr = []

-- The address of an interface, if it has one of this type and goes by this name.
unfoldable pub address_of : String → String → Interface → List (HashMap String)
address_of type_name name interface = elim interface.addr [
  | v4 ip ↦
      selected (if_type ip.ip interface.name == type_name && interface.name == name) (address ip)
  | v6 ↦ []
]

unfoldable pub addresses_of : String → String → List Interface → List (HashMap String)
unfolding address_of
addresses_of type_name name [] = []
addresses_of type_name name (interface ∷ more) =
    address_of type_name name interface ++ addresses_of type_name name more

entry_or_empty-insert {ℓ} :
    {A : Type ℓ} (j k : String) (v : List A) (m : HashMap (List A))
    → entry_or_empty j (HashMap.insert k v m) ≡ (if k == j then v else entry_or_empty j m)
unfolding entry_or_empty
entry_or_empty-insert j k v m = ground (arith, HashMap.get-insert j k v m)

addresses-add_address :
    (t u n k : String) (addr : HashMap String) (found : Addresses)
    → addresses t n (add_address u k addr found)
      ≡ addresses t n found ++ selected (u == t && k == n) addr
unfolding addresses add_address
addresses-add_address t u n k addr found =
    let outer =
      entry_or_empty-insert t u
        (HashMap.insert k (entry_or_empty k (entry_or_empty u found) ++ addr ∷ [])
          (entry_or_empty u found))
        found in
    let inner =
      entry_or_empty-insert n k (entry_or_empty k (entry_or_empty u found) ++ addr ∷ [])
        (entry_or_empty u found) in
    elim (Bool-cases (u == t)) [
      | inr other ↦ rw (outer, other) (sym (append-nil _))
      | inl same ↦ elim (Bool-cases (k == n)) [
        | inr other ↦ rw (outer, same, inner, other) (rw ((eq_iff u t).0 same) (sym (append-nil _)))
        | inl same_name ↦
            rw (outer, same, inner, same_name) (rw ((eq_iff u t).0 same, (eq_iff k n).0 same_name))
      ]
    ]

addresses-add_interface :
    (t n : String) (found : Addresses) (interface : Interface)
    → addresses t n (add_interface found interface)
      ≡ addresses t n found ++ address_of t n interface
unfolding add_interface address_of
addresses-add_interface t n found interface = by_addr interface.addr
  where
    by_addr :
        (addr : IfAddr)
        → addresses t n (elim addr [
          | v4 ip ↦ add_address (if_type ip.ip interface.name) interface.name (address ip) found
          | v6 ↦ found
        ])
          ≡ addresses t n found ++ (elim addr [
            | v4 ip ↦
                selected (if_type ip.ip interface.name == t && interface.name == n) (address ip)
            | v6 ↦ []
          ])
    by_addr (v4 ip) =
        addresses-add_address t (if_type ip.ip interface.name) n interface.name (address ip) found
    by_addr v6 = sym (append-nil _)

addresses-collect_from :
    (t n : String) (found : Addresses) (interfaces : List Interface)
    → addresses t n (collect found interfaces) ≡ addresses t n found ++ addresses_of t n interfaces
unfolding collect addresses_of
addresses-collect_from t n found [] = sym (append-nil _)
addresses-collect_from t n found (interface ∷ more) =
    rw
      (
        addresses-collect_from t n (add_interface found interface) more,
        addresses-add_interface t n found interface,
      )
      (append_assoc (addresses t n found) (address_of t n interface) (addresses_of t n more))

-- The addresses that are told for a type and a name are those of the IPv4 interfaces of this name with
-- an address of this type, each once, in their order.
pub addresses-collect :
    (type_name name : String) (interfaces : List Interface)
    → addresses type_name name (collect [] interfaces) ≡ addresses_of type_name name interfaces
unfolding addresses
addresses-collect type_name name interfaces = addresses-collect_from type_name name [] interfaces
