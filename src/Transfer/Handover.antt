-- ===== src/Transfer/Handover.antt =====
-- Transfers from their start to their end.
use taiga_back_schedule_mana.Base.{
  ℕ, ◌+◌, ◌≤◌, ◌<◌, ◌≡◌, refl, sym, ◌∙◌, ap, Bool, true, false, none, some, is_some, List, [], ◌∷◌,
  first, any_of, update_where, ◌==◌, if◌then◌else◌, Bool-cases, inl, inr,
}
use taiga_back_schedule_mana.Model.{
  Error, Result, ok, err, ◌>>=◌, wrong_arguments, does_not_exist, token_invalid, token_expired,
}
use taiga_back_schedule_mana.Unique.{Text, same_text, str}
use taiga_back_schedule_mana.Unique.Free.{same_text_self}
use taiga_back_schedule_mana.Transfer.Services.{
  Membership, Project, Unsigned, signed, signature_expired, bad_signature, max_age, is_token,
  check_value, is_member, make_admin, start_project_transfer, validate_project_transfer_token,
  reject_project_transfer, accept_project_transfer,
}

abbrev pub is_admin_of : ℕ → Project → Bool
is_admin_of user project =
    any_of (λ m. if m.user_id == user then m.is_admin else false) project.memberships

refused : {A : Type 0} (e : Error) (a : A) → err e ≡ ok a → ⊥
refused e a h = cc

made_admin :
    (user : ℕ) (rows : List Membership)
    → is_some (first (is_member user) rows) ≡ true
    → any_of
        (λ m. if m.user_id == user then m.is_admin else false)
        (update_where (is_member user) make_admin rows)
      ≡ true
made_admin user [] h = absurd (no h)
  where
    no : false ≡ true → ⊥
    no e = cc
made_admin user (m ∷ rows) h = elim (Bool-cases (is_member user m)) [
  | inl hit ↦ rw (hit, hit) refl
  | inr miss ↦
      rw (miss, miss)
        (made_admin user rows
          (sym (ap (λ b. is_some (if b then some m else first (is_member user) rows)) miss) ∙ h))
]

module _ (sign : ℕ → Text → Text) (unsign : ℕ → Text → Unsigned) where
  -- A text signed at a time is given back up to the maximal age and has expired afterwards.
  abbrev pub Signs : Type 0
  Signs =
      ((now later : ℕ) (text : Text)
        → now ≤ later
        → later ≤ now + max_age
        → unsign later (sign now text) ≡ signed text)
      × ((now later : ℕ) (text : Text)
          → now + max_age < later
          → unsign later (sign now text) ≡ signature_expired)

  -- Where a transfer is accepted, the project waited for this token and the signature gives the user's id;
  -- the user is the owner and an admin afterwards, and the token is gone.
  pub accept_project_transfer-Entitled :
      (now user : ℕ) (token : Text) (project project' : Project)
      → accept_project_transfer sign unsign now token user project ≡ ok project'
      → (is_token token project.transfer_token ≡ true)
        × ((value : Text) × (unsign now token ≡ signed value) × (same_text value (str user) ≡ true))
        × (project'.owner ≡ user)
        × (project'.transfer_token ≡ none)
        × (is_admin_of user project' ≡ true)
  unfolding accept_project_transfer validate_project_transfer_token
  accept_project_transfer-Entitled now user token project project' h =
      elim (Bool-cases (is_token token project.transfer_token)) [
        | inl pending ↦ after_token pending (unsign now token) refl (sym (ap tested pending) ∙ h)
        | inr other ↦
            absurd (refused (wrong_arguments token_invalid) project' (sym (ap tested other) ∙ h))
      ]
    where
      done : Project
      done = record {
        owner = user;
        transfer_token = none;
        memberships = update_where (is_member user) make_admin project.memberships;
      }

      finish : Bool → Result Project
      finish b = if b then ok done else err does_not_exist

      checked : Unsigned → Result Project
      checked r =
          check_value user r >>= λ _. finish (is_some (first (is_member user) project.memberships))

      valued : Bool → Result Project
      valued b = (if b then ok tt else err (wrong_arguments token_invalid)) >>= λ _.
          finish (is_some (first (is_member user) project.memberships))

      tested : Bool → Result Project
      tested b =
          (if b then check_value user (unsign now token) else err (wrong_arguments token_invalid))
          >>= λ _. finish (is_some (first (is_member user) project.memberships))

      same_project : ok done ≡ ok project' → done ≡ project'
      same_project e = cc

      after_token :
          is_token token project.transfer_token ≡ true
          → (r : Unsigned) → unsign now token ≡ r
          → checked (unsign now token) ≡ ok project'
          → (is_token token project.transfer_token ≡ true)
            × ((value : Text) × (unsign now token ≡ signed value)
                × (same_text value (str user) ≡ true))
            × (project'.owner ≡ user)
            × (project'.transfer_token ≡ none)
            × (is_admin_of user project' ≡ true)
      after_token pending signature_expired e k =
          absurd (refused (wrong_arguments token_expired) project' (sym (ap checked e) ∙ k))
      after_token pending bad_signature e k =
          absurd (refused (wrong_arguments token_invalid) project' (sym (ap checked e) ∙ k))
      after_token pending (signed value) e k = elim (Bool-cases (same_text value (str user))) [
        | inr apart ↦ absurd (
            refused (wrong_arguments token_invalid) project'
              (sym (ap valued apart) ∙ (sym (ap checked e) ∙ k)))
        | inl same ↦
            let ending = sym (ap valued same) ∙ (sym (ap checked e) ∙ k) in
            elim (Bool-cases (is_some (first (is_member user) project.memberships))) [
              | inr absent ↦
                  absurd (refused does_not_exist project' (sym (ap finish absent) ∙ ending))
              | inl member ↦
                  let final = same_project (sym (ap finish member) ∙ ending) in
                  (
                    pending,
                    (value, e, same),
                    sym (ap (λ x. x.owner) final),
                    sym (ap (λ x. x.transfer_token) final),
                    sym (ap (is_admin_of user) final) ∙ made_admin user project.memberships member,
                  )
            ]
      ]

  -- Where the signer works, a member to whom a transfer was started may accept it within the maximal age and
  -- is the owner and an admin then; a second use of the token is refused.
  pub accept_project_transfer-start_project_transfer :
      (now later user : ℕ) (project : Project)
      → Signs
      → now ≤ later
      → later ≤ now + max_age
      → is_some (first (is_member user) project.memberships) ≡ true
      → (project' : Project) × (accept_project_transfer sign unsign later
            (sign now (str user))
            user
            (start_project_transfer sign unsign now user project)
          ≡ ok project')
        × (project'.owner ≡ user)
        × (is_admin_of user project' ≡ true)
        × (accept_project_transfer sign unsign later (sign now (str user)) user project'
            ≡ err (wrong_arguments token_invalid))
  unfolding accept_project_transfer validate_project_transfer_token start_project_transfer
  accept_project_transfer-start_project_transfer now later user project signs l u member = (
    record {
      owner = user;
      transfer_token = none;
      memberships = update_where (is_member user) make_admin project.memberships;
    },
    rw
        (
          same_text_self (sign now (str user)),
          signs.0 now later (str user) l u,
          same_text_self (str user),
          member,
        )
        refl,
    refl,
    made_admin user project.memberships member,
    refl,
  )

  -- Where the signer works, nobody may accept or reject a transfer once it is older than the maximal age.
  pub transfer_expires :
      (now later user other : ℕ) (project : Project)
      → Signs
      → now + max_age < later
      → (accept_project_transfer sign unsign later
            (sign now (str user))
            other
            (start_project_transfer sign unsign now user project)
          ≡ err (wrong_arguments token_expired))
        × (reject_project_transfer sign unsign later
              (sign now (str user))
              other
              (start_project_transfer sign unsign now user project)
            ≡ err (wrong_arguments token_expired))
  unfolding accept_project_transfer reject_project_transfer validate_project_transfer_token
      start_project_transfer
  transfer_expires now later user other project signs late = (
    rw (same_text_self (sign now (str user)), signs.1 now later (str user) late) refl,
    rw (same_text_self (sign now (str user)), signs.1 now later (str user) late) refl,
  )
