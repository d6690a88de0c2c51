-- ===== src/Capabilities/Commands.antt =====
-- InitializeResultAppendExecuteCommandProvider of src/ulsp/mapper/lsp_lifecycle.go, called by one plugin after
-- the other.
use scip_lsp.Common.{
  contains, contains-append, ◌∙◌, Bool-cases, String, Option, none, some, List, [], ◌∷◌, ◌++◌,
  string_key, ◌≡◌, refl, sym, ap, arith, if◌then◌else◌, ◌⊎◌, inl, inr, Option-cases,
}
use mathlib.Core.List.{append-nil, append_assoc}
use scip_lsp.Capabilities.{
  ExecuteCommandOptions, CapabilityError, duplicate_command, slice, new_commands, commands_with,
  execute_command_with,
}

abbrev pub append_all_commands :
    Option ExecuteCommandOptions
    → List ExecuteCommandOptions
    → CapabilityError ⊎ Option ExecuteCommandOptions
append_all_commands p [] = inr p
append_all_commands p (o ∷ os) = elim (execute_command_with p o) [
  | inl e ↦ inl e
  | inr q ↦ append_all_commands q os
]

-- the first command of a list that another list holds
abbrev pub first_common : List String → List String → Option String
first_common seen [] = none
first_common seen (c ∷ cs) =
    let rest = first_common seen cs in if contains c seen then some c else rest

-- the first command of a plugin that a plugin before it has too
abbrev pub first_clash : List String → List ExecuteCommandOptions → Option String
first_clash seen [] = none
first_clash seen (o ∷ os) =
    let later = first_clash (seen ++ slice o.commands) os in
    elim (first_common seen (slice o.commands)) [ some c ↦ some c | none ↦ later ]

abbrev pub all_commands : List ExecuteCommandOptions → List String
all_commands [] = []
all_commands (o ∷ os) = slice o.commands ++ all_commands os

abbrev pub registered_commands :
    CapabilityError ⊎ Option ExecuteCommandOptions → CapabilityError ⊎ List String
registered_commands (inl e) = inl e
registered_commands (inr none) = inr []
registered_commands (inr (some o)) = inr (slice o.commands)

abbrev pub clash_or : Option String → List String → CapabilityError ⊎ List String
clash_or none all = inr all
clash_or (some c) all = inl (duplicate_command c)

new_commands-first_common :
    (seen cs : List String) → new_commands seen cs ≡ clash_or (first_common seen cs) cs
unfolding new_commands
new_commands-first_common seen [] = refl
new_commands-first_common seen (c ∷ cs) = ground (arith, new_commands-first_common seen cs)

first_common-nil : (cs : List String) → first_common [] cs ≡ none
unfolding contains
first_common-nil [] = refl
first_common-nil (c ∷ cs) = first_common-nil cs

-- the outcome of a call: the new options, or the error of a common command
abbrev Outcome :
    Option (List String)
    → Option (List String)
    → CapabilityError ⊎ Option ExecuteCommandOptions
    → Type 0
Outcome old new r =
    ((q : ExecuteCommandOptions) × ((r ≡ inr (some q))
        × ((first_common (slice old) (slice new) ≡ none)
            × (slice q.commands ≡ slice old ++ slice new))))
    ⊎ ((c : String) × ((r ≡ inl (duplicate_command c))
          × (first_common (slice old) (slice new) ≡ some c)))

execute_command-Outcome :
    (old new : Option (List String))
    → Outcome old new
        (execute_command_with (some (record { commands = old })) (record { commands = new }))
unfolding execute_command_with commands_with
execute_command-Outcome old none =
    inl (record { commands = old }, (refl, (refl, sym (append-nil (slice old)))))
execute_command-Outcome none (some cs) =
    inl (record { commands = some cs }, (refl, (first_common-nil cs, refl)))
execute_command-Outcome (some old) (some cs) = elim (Option-cases (first_common old cs)) [
  | inl fresh ↦ inl (
    record { commands = some (old ++ cs) },
    (ground (arith, fresh, new_commands-first_common old cs), (fresh, refl)),
  )
  | inr (c, clash) ↦ inr (c, (ground (arith, clash, new_commands-first_common old cs), clash))
]

append_all-registered :
    (o : ExecuteCommandOptions) (os : List ExecuteCommandOptions)
    → registered_commands (append_all_commands (some o) os)
      ≡ clash_or (first_clash (slice o.commands) os) (slice o.commands ++ all_commands os)
append_all-registered o [] = ap inr (sym (append-nil (slice o.commands)))
append_all-registered o (new ∷ os) = elim (execute_command-Outcome o.commands new.commands) [
  | inl (q, (e, (fresh, both))) ↦ ground (
    arith,
    e,
    fresh,
    both,
    append_all-registered q os,
    append_assoc (slice o.commands) (slice new.commands) (all_commands os),
  )
  | inr (c, (e, clash)) ↦ ground (arith, e, clash)
]

append_all_commands-registered :
    (os : List ExecuteCommandOptions)
    → registered_commands (append_all_commands none os)
      ≡ clash_or (first_clash [] os) (all_commands os)
unfolding execute_command_with
append_all_commands-registered [] = refl
append_all_commands-registered (o ∷ os) =
    ground (arith, append_all-registered o os, first_common-nil (slice o.commands))

-- the first command that stands in `seen` or earlier in the list
abbrev pub first_repeat : List String → List String → Option String
first_repeat seen [] = none
first_repeat seen (c ∷ cs) =
    let rest = first_repeat (seen ++ c ∷ []) cs in if contains c seen then some c else rest

-- no plugin lists a command twice itself
abbrev pub AllDistinct : List ExecuteCommandOptions → Type 0
AllDistinct [] = Unit
AllDistinct (o ∷ os) = (first_repeat [] (slice o.commands) ≡ none) × AllDistinct os

abbrev or_else : Option String → Option String → Option String
or_else none later = later
or_else (some c) later = some c

first_repeat-append :
    (seen cs ds : List String)
    → first_repeat seen (cs ++ ds) ≡ or_else (first_repeat seen cs) (first_repeat (seen ++ cs) ds)
first_repeat-append seen [] ds = ap (λ l. first_repeat l ds) (sym (append-nil seen))
first_repeat-append seen (c ∷ cs) ds = elim (Bool-cases (contains c seen)) [
  | inl repeated ↦ rw repeated refl
  | inr fresh ↦ rw fresh (
      first_repeat-append (seen ++ c ∷ []) cs ds
      ∙ ap (λ l. or_else (first_repeat (seen ++ c ∷ []) cs) (first_repeat l ds))
          (append_assoc seen (c ∷ []) cs))
]

first_repeat-first_common :
    (seen own cs : List String)
    → first_repeat own cs ≡ none
    → first_repeat (seen ++ own) cs ≡ first_common seen cs
first_repeat-first_common seen own [] h = refl
first_repeat-first_common seen own (c ∷ cs) h = elim (Bool-cases (contains c own)) [
  | inl repeated ↦ absurd (ground (arith, repeated, h))
  | inr fresh ↦
      let rest : first_repeat (own ++ c ∷ []) cs ≡ none = ground (arith, fresh, h) in
      let later : first_repeat ((seen ++ own) ++ c ∷ []) cs ≡ first_common seen cs =
        ap (λ l. first_repeat l cs) (append_assoc seen own (c ∷ []))
        ∙ first_repeat-first_common seen (own ++ c ∷ []) cs rest in
      ground (arith, fresh, later, contains-append c seen own)
]

first_clash-first_repeat :
    (seen : List String) (os : List ExecuteCommandOptions)
    → AllDistinct os
    → first_clash seen os ≡ first_repeat seen (all_commands os)
first_clash-first_repeat seen [] d = refl
first_clash-first_repeat seen (o ∷ os) d =
    let own = slice o.commands in
    let first : first_repeat seen own ≡ first_common seen own =
      ap (λ l. first_repeat l own) (sym (append-nil seen))
      ∙ first_repeat-first_common seen [] own d.0 in
    let later = first_clash-first_repeat (seen ++ own) os d.1 in
    ground (arith, first, later, first_repeat-append seen own (all_commands os))

-- Plugins none of which lists a command twice itself hand their commands over, one after the other and with none registered
-- before: if all the commands are different, they are all registered, in that order; otherwise the error names the first one
-- that an earlier plugin has too.
pub append_all_commands_unique :
    (os : List ExecuteCommandOptions)
    → AllDistinct os
    → registered_commands (append_all_commands none os)
      ≡ clash_or (first_repeat [] (all_commands os)) (all_commands os)
append_all_commands_unique os d =
    append_all_commands-registered os
    ∙ ap (λ c. clash_or c (all_commands os)) (first_clash-first_repeat [] os d)
