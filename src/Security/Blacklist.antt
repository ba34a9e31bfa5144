-- ===== src/Security/Blacklist.antt =====
-- What loadBlacklistFromEnv reads.
use h_go.Base.{
  String, ◌≡◌, refl, ap, sym, ◌∙◌, true, false, not, ◌&&◌, ◌||◌, List, [], ◌∷◌, ◌++◌, map, arith,
  eq_iff, str_eq, contains, Bool-cases, inl, inr,
}
use h_go.Text.Trim.{trim_space, is_empty}
use h_go.Text.Split.{split}
use h_go.Security.{add_ips, load_blacklist}

contains-append :
    (t x : String) (xs : List String) → contains t (xs ++ x ∷ []) ≡ (contains t xs || str_eq x t)
contains-append t x [] = ground arith
contains-append t x (y ∷ ys) = ground (arith, contains-append t x ys)

contains-add_ips :
    (ip : String) (out items : List String)
    → contains ip (add_ips out items)
      ≡ (contains ip out || not (is_empty ip) && contains ip (map trim_space items))
unfolding add_ips
contains-add_ips ip out [] = ground arith
contains-add_ips ip out (item ∷ rest) =
    let x = trim_space item in
    ground (
      arith,
      contains-add_ips ip out rest,
      contains-add_ips ip (out ++ x ∷ []) rest,
      contains-append ip x out,
      eq_iff x ip,
    )

split-nothing :
    (ip : String) → (not (is_empty ip) && contains ip (map trim_space (split "," ""))) ≡ false
unfolding split trim_space
split-nothing String.[] = refl
split-nothing (String.◌∷◌ c s) =
    let differ : ◌≡◌ {A = String} "" (String.◌∷◌ c s) → true ≡ false = λ e. ap is_empty e in
    ground (arith, eq_iff "" (String.◌∷◌ c s), differ)

is_empty-nil : (s : String) → is_empty s ≡ true → s ≡ String.[]
is_empty-nil String.[] h = refl
is_empty-nil (String.◌∷◌ c s) h = absurd (ground arith)

-- The blacklist is the addresses between the commas of the variable, without the white space around them; what is
-- blank is no address.
pub contains-load_blacklist :
    (ip env : String)
    → contains ip (load_blacklist env)
      ≡ (not (is_empty ip) && contains ip (map trim_space (split "," (trim_space env))))
unfolding load_blacklist
contains-load_blacklist ip env = elim (Bool-cases (is_empty (trim_space env))) [
  | inl blank ↦
      (let none_listed : load_blacklist env ≡ [] = ground arith in
        ap (contains ip) none_listed
        ∙ sym (split-nothing ip)
        ∙ ap (λ s. not (is_empty ip) && contains ip (map trim_space (split "," s)))
            (sym (is_empty-nil (trim_space env) blank)))
  | inr filled ↦ ground (arith, contains-add_ips ip [] (split "," (trim_space env)))
]
