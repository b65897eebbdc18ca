-- ===== src/Access/IpFilter.antt =====
-- The class IPFilter of utils/ip_filter.py. The two files are an argument of each call: the lines of
-- a file that exists. An address is known by its canonical text.
use comfy_ui_account_manager.Base.{
  String, Bool, false, not, ◌||◌, List, [], ◌∷◌, ◌++◌, Option, none, some, str_eq, holds,
  if◌then◌else◌,
}

-- What the code uses of other packages: the SHA-256 digest of a file, `str.strip`, and
-- `ipaddress.ip_address` (`none` where it raises ValueError).
pub record Library : Type 0 where
  pub sha256 : List String → String
  pub strip : String → String
  pub ip_address : String → Option String

pub record Files : Type 0 where
  pub whitelist : Option (List String)
  pub blacklist : Option (List String)

pub record Filter : Type 0 where
  pub whitelist : List String
  pub blacklist : List String
  pub whitelist_hash : Option String
  pub blacklist_hash : Option String

-- AttributeError, and io.UnsupportedOperation
pub data Error : Type 0 where
  attribute_error unsupported_operation : Error

pub data Outcome {ℓ} (A : Type ℓ) : Type ℓ where
  raised : Error → Outcome A
  returned : A → Outcome A

unfoldable pub calculate_file_hash : Library → Option (List String) → String
calculate_file_hash lib none = ""
calculate_file_hash lib (some lines) = lib.sha256 lines

-- The loop over the lines of a file.
unfoldable pub read_addresses : Library → List String → List String
read_addresses lib [] = []
read_addresses lib (line ∷ lines) =
    let rest = read_addresses lib lines in
    let ip = lib.strip line in
    if str_eq ip ""
    then rest
    else elim (lib.ip_address ip) [ none ↦ rest | some address ↦ address ∷ rest ]

-- `load_ip_list`: the list and the new hash. Where the hash did not change, the source asks for the
-- attribute named by hash_attribute.split("_")[0], which is the empty text.
unfoldable pub load_ip_list :
    Library → Option (List String) → Option String → Outcome (List String × Option String)
unfolding calculate_file_hash read_addresses
load_ip_list lib file current_hash =
    if holds current_hash (calculate_file_hash lib file)
    then raised attribute_error
    else elim file [
      | none ↦ returned ([], current_hash)
      | some lines ↦ returned (read_addresses lib lines, some (lib.sha256 lines))
    ]

-- The whitelist is set before the blacklist is read.
unfoldable pub load_filter_list : Library → Files → Filter → Outcome (Unit {0}) × Filter
unfolding load_ip_list
load_filter_list lib files f = elim (load_ip_list lib files.whitelist f.whitelist_hash) [
  | raised e ↦ (raised e, f)
  | returned (whitelist, hash) ↦
      let f' : Filter = record f { whitelist = whitelist; whitelist_hash = hash } in
      elim (load_ip_list lib files.blacklist f.blacklist_hash) [
        | raised e ↦ (raised e, f')
        | returned (blacklist, hash') ↦
            (returned tt, record f' { blacklist = blacklist; blacklist_hash = hash' })
      ]
]

-- `__init__`
unfoldable pub new_filter : Library → Files → Outcome (Unit {0}) × Filter
unfolding load_filter_list
new_filter lib files =
    load_filter_list lib files
      (record { whitelist = []; blacklist = []; whitelist_hash = none; blacklist_hash = none })

-- ip in addresses
unfoldable pub is_listed : String → List String → Bool
is_listed ip [] = false
is_listed ip (a ∷ addresses) = str_eq a ip || is_listed ip addresses

-- The decision after the load.
unfoldable pub decide : Filter → Option String → Bool
unfolding is_listed
decide f none = false
decide f (some ip) = elim f.whitelist [
  | [] ↦ not (is_listed ip f.blacklist)
  | a ∷ addresses ↦ is_listed ip (a ∷ addresses)
]

unfoldable pub is_allowed : Library → Files → String → Filter → Outcome Bool × Filter
unfolding load_filter_list decide
is_allowed lib files ip f =
    let (loaded, f') = load_filter_list lib files f in
    (
      elim loaded [ raised e ↦ raised e | returned u ↦ returned (decide f' (lib.ip_address ip)) ],
      f',
    )

-- The write to the blacklist's file: a file opened with mode "a" cannot be read, which the source
-- does where the file is not empty.
unfoldable pub append_line : String → Option (List String) → Outcome (List String)
append_line ip none = returned (ip ∷ [])
append_line ip (some []) = returned (ip ∷ [])
append_line ip (some (line ∷ lines)) = raised unsupported_operation

-- The result is the blacklist's file after the call, which does not change where nothing is written.
unfoldable pub add_to_blacklist :
    Library → Files → String → Filter → Outcome (Option (List String)) × Filter
unfolding is_listed append_line
add_to_blacklist lib files ip f = elim (lib.ip_address ip) [
  | none ↦ (returned files.blacklist, f)
  | some address ↦ if is_listed address f.blacklist then (returned files.blacklist, f) else (
    elim (append_line address files.blacklist) [
      | raised e ↦ raised e
      | returned lines ↦ returned (some lines)
    ],
    record f { blacklist = f.blacklist ++ address ∷ [] },
  )
]
