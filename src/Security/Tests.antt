-- ===== src/Security/Tests.antt =====
-- Three connections from one address, with a limit of two in ten seconds, and one from a blacklisted address.
use h_go.Base.{◌≡◌, refl, true, false, [], ◌∷◌, pos, arith}
use h_go.Security.Limit.{
  History, InOrder, answers, spec_answers, new_gate, allow_connection_refines,
}

abbrev connections : History
connections =
    ("10.0.0.1", 100)
    ∷ ("10.0.0.1", 101)
    ∷ ("10.0.0.1", 102)
    ∷ ("10.6.6.6", 103)
    ∷ ("10.0.0.1", 111)
    ∷ []

in_order : InOrder 0 connections
in_order = (omega arith, (omega arith, (omega arith, (omega arith, (omega arith, tt)))))

third_refused :
    spec_answers ("10.6.6.6" ∷ []) (pos 10) 2 [] connections
    ≡ true ∷ true ∷ false ∷ false ∷ true ∷ []
unfolding spec_answers
third_refused = refl

allow_connection_refines_example :
    answers (new_gate ("10.6.6.6" ∷ []) (pos 10) 2) connections
    ≡ spec_answers ("10.6.6.6" ∷ []) (pos 10) 2 [] connections
allow_connection_refines_example =
    allow_connection_refines ("10.6.6.6" ∷ []) (pos 10) 2 0 connections in_order
