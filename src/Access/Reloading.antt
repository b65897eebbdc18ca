-- ===== src/Access/Reloading.antt =====
-- Reading the address files twice.
use comfy_ui_account_manager.Base.{
  String, List, Option, none, some, ◌≡◌, ◌⊎◌, inl, inr, refl, arith, str_eq_refl,
}
use comfy_ui_account_manager.Access.IpFilter.{
  Library, Files, Filter, Error, attribute_error, Outcome, raised, returned, calculate_file_hash,
  load_ip_list, load_filter_list,
}

-- A list that was read of a file that exists cannot be read again.
reload-raises :
    (lib : Library) (lines : List String) (hash : Option String) (r : List String × Option String)
    → load_ip_list lib (some lines) hash ≡ returned r
    → load_ip_list lib (some lines) r.1 ≡ raised attribute_error
unfolding load_ip_list calculate_file_hash
reload-raises lib lines hash r e = ground (arith, str_eq_refl (lib.sha256 lines))

only-attribute_error :
    (lib : Library) (file : Option (List String)) (hash : Option String) (e : Error)
    → load_ip_list lib file hash ≡ raised e
    → e ≡ attribute_error
unfolding load_ip_list
only-attribute_error lib none hash e h = ground arith
only-attribute_error lib (some lines) hash e h = ground arith

Outcome-cases {ℓ} :
    {A : Type ℓ} (o : Outcome A) → ((e : Error) × (o ≡ raised e)) ⊎ ((a : A) × (o ≡ returned a))
Outcome-cases (raised e) = inl (e, refl)
Outcome-cases (returned a) = inr (a, refl)

-- The second load, with the hashes of the first one.
second-raises :
    (lib : Library) (files : Files) (lines : List String)
    → (files.whitelist ≡ some lines) ⊎ (files.blacklist ≡ some lines)
    → (r r' : List String × Option String) (h h' : Option String)
    → load_ip_list lib files.whitelist h ≡ returned r
    → load_ip_list lib files.blacklist h' ≡ returned r'
    → (f : Filter) → f.whitelist_hash ≡ r.1
    → f.blacklist_hash ≡ r'.1
    → (load_filter_list lib files f).0 ≡ raised attribute_error
unfolding load_filter_list
second-raises lib files lines exists r r' h h' w b f e e' =
    elim (Outcome-cases (load_ip_list lib files.whitelist f.whitelist_hash)) [
      | inl (raised_error, again) ↦
          rw
            (
              again,
              load_filter_list,
              only-attribute_error lib files.whitelist f.whitelist_hash raised_error again,
            )
            refl
      | inr (ok, again) ↦ elim exists [
        | inl white ↦ absurd (
            ground
              (arith, again, reload-raises lib lines h r (rw white at w), rw (white, e) at again))
        | inr black ↦
            let second = reload-raises lib lines h' r' (rw black at b) in
            rw (again, load_filter_list, black, e', second) refl
      ]
    ]

-- If `load_filter_list` succeeds while one of the two files exists, the next `load_filter_list` raises
-- AttributeError, as long as the files do not change.
pub load_filter_list_again :
    (lib : Library) (files : Files) (f : Filter) (lines : List String)
    → (files.whitelist ≡ some lines) ⊎ (files.blacklist ≡ some lines)
    → (load_filter_list lib files f).0 ≡ returned tt
    → (load_filter_list lib files (load_filter_list lib files f).1).0 ≡ raised attribute_error
unfolding load_filter_list
load_filter_list_again lib files f lines exists e =
    elim (Outcome-cases (load_ip_list lib files.whitelist f.whitelist_hash)) [
      | inl (raised_error, w) ↦ absurd (ground (arith, w))
      | inr (r, w) ↦ elim (Outcome-cases (load_ip_list lib files.blacklist f.blacklist_hash)) [
        | inl (raised_error, b) ↦ absurd (ground (arith, w, b))
        | inr (r', b) ↦
            second-raises lib files lines exists r r' f.whitelist_hash f.blacklist_hash w b
              (load_filter_list lib files f).1 (ground (arith, w, b)) (ground (arith, w, b))
      ]
    ]
