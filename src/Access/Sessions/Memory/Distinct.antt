-- ===== src/Access/Sessions/Memory/Distinct.antt =====
-- No two sessions of the store have the same id.
use company_erp.Base.{◌≡◌, inl, inr, String, false, [], ◌∷◌, str_eq, Bool-cases, sym, eq_iff}
use company_erp.Access.Sessions.{Session}
use company_erp.Access.Sessions.Memory.{Sessions, set_session, change_all}

-- No session of the store has the id.
abbrev pub Unused : String → Sessions → Type 0
Unused id [] = Unit
Unused id ((k, session) ∷ rest) = (str_eq session.id id ≡ false) × Unused id rest

-- No two sessions have the same id.
abbrev pub Distinct : Sessions → Type 0
Distinct [] = Unit
Distinct ((k, session) ∷ rest) = Unused session.id rest × Distinct rest

pub str_eq_comm : (s t : String) → str_eq s t ≡ false → str_eq t s ≡ false
str_eq_comm s t h = elim (Bool-cases (str_eq t s)) [
  | inl e ↦ cc (h, (eq_iff s t).1 (sym ((eq_iff t s).0 e)))
  | inr e ↦ e
]

-- A change that keeps the ids.
abbrev pub KeepsId : (Session → Session) → Type 0
KeepsId change = (session : Session) → (change session).id ≡ session.id

pub Unused-change_all :
    (s : Sessions) (id : String) (change : Session → Session)
    → KeepsId change
    → Unused id s
    → Unused id (change_all change s)
unfolding change_all
Unused-change_all [] id change keeps unused = tt
Unused-change_all ((k, session) ∷ rest) id change keeps (here, there) =
    (rw (keeps session) here, Unused-change_all rest id change keeps there)

pub Distinct-change_all :
    (s : Sessions) (change : Session → Session)
    → KeepsId change
    → Distinct s
    → Distinct (change_all change s)
unfolding change_all
Distinct-change_all [] change keeps distinct = tt
Distinct-change_all ((k, session) ∷ rest) change keeps (new, distinct) = (
  rw (keeps session) (Unused-change_all rest session.id change keeps new),
  Distinct-change_all rest change keeps distinct,
)

pub Unused-set_session :
    (s : Sessions) (id key : String) (session : Session)
    → str_eq session.id id ≡ false
    → Unused id s
    → Unused id (set_session key session s)
unfolding set_session
Unused-set_session [] id key session other unused = (other, tt)
Unused-set_session ((k, old) ∷ rest) id key session other (here, there) =
    elim (Bool-cases (str_eq k key)) [
      | inl e ↦ rw (e, set_session) (other, there)
      | inr e ↦ rw (e, set_session) (here, Unused-set_session rest id key session other there)
    ]

pub Distinct-set_session :
    (s : Sessions) (key : String) (session : Session)
    → Unused session.id s
    → Distinct s
    → Distinct (set_session key session s)
unfolding set_session
Distinct-set_session [] key session unused distinct = (tt, tt)
Distinct-set_session ((k, old) ∷ rest) key session (here, there) (new, distinct) =
    elim (Bool-cases (str_eq k key)) [
      | inl e ↦ rw (e, set_session) (there, distinct)
      | inr e ↦
          rw (e, set_session)
            (
              Unused-set_session rest old.id key session (str_eq_comm old.id session.id here) new,
              Distinct-set_session rest key session there distinct,
            )
    ]
