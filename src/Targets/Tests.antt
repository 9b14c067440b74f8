-- ===== src/Targets/Tests.antt =====
-- Two saved targets.
use application_monitoring.Prelude.{
  ◌++◌, ℕ, ◌≡◌, ◌≢◌, refl, Bool, true, [], ◌∷◌, none, some, if◌then◌else◌, arith,
}
use application_monitoring.Text.{Bytes, codes, strcmp_eq, copy_bounded}
use application_monitoring.Examples.{start_config}
use application_monitoring.Targets.{
  NeoTarget, NeoTargetList, target_init, target_list_init, target_list_find, target_list_upsert,
  target_list_remove, target_from_config, target_apply_to_config,
}
use application_monitoring.Targets.Lookup.{
  NamesDiffer, target_list_find-target_list_upsert, target_list_find-target_list_remove,
}
use application_monitoring.Targets.Json.{
  json_read_string, json_write_string, json_consume, json_skip_ws, json_string_loop, json_escapes,
  json_escape, unescaped,
}
use application_monitoring.Targets.Strings.{json_read_string-json_write_string}
use application_monitoring.Targets.Names.{
  upserted, removed, initially, after, IsValid, Reachable-IsValid,
}
use application_monitoring.Targets.Bridge.{
  with_connection, target_apply_to_config-target_from_config,
}

abbrev named : Bytes → NeoTarget
named name = record target_init { name = name }

abbrev room : ℕ → Bool
room n = true

abbrev one : NeoTargetList
one = record { items = named (codes "web") ∷ []; capacity = 8 }

abbrev two : NeoTargetList
two = record { items = named (codes "web") ∷ named (codes "db") ∷ []; capacity = 8 }

abbrev last_one : NeoTargetList
last_one = record { items = named (codes "db") ∷ []; capacity = 8 }

first_saved : target_list_upsert room target_list_init (named (codes "web")) ≡ some one
unfolding target_list_upsert
first_saved = refl

second_saved : target_list_upsert room one (named (codes "db")) ≡ some two
unfolding target_list_upsert
second_saved = refl

first_removed : target_list_remove two (codes "web") ≡ some last_one
unfolding target_list_remove
first_removed = refl

target_list_find-target_list_upsert_example : target_list_find two (codes "web") ≡ (
    if strcmp_eq (codes "db") (codes "web")
    then some (named (codes "db"))
    else target_list_find one (codes "web"))
target_list_find-target_list_upsert_example =
    target_list_find-target_list_upsert room one (named (codes "db")) second_saved (codes "web")

differ : codes "db" ≢ codes "web"
differ e = ground (arith, e)

two-NamesDiffer : NamesDiffer two.items
two-NamesDiffer = ((differ, tt), (tt, tt))

target_list_find-target_list_remove_example :
    target_list_find last_one (codes "db")
    ≡ (if strcmp_eq (codes "web") (codes "db") then none else target_list_find two (codes "db"))
target_list_find-target_list_remove_example =
    target_list_find-target_list_remove two (codes "web") two-NamesDiffer first_removed (codes "db")

Reachable-IsValid_example : IsValid last_one
Reachable-IsValid_example = Reachable-IsValid room last_one (
    after
      (after (after initially (upserted (named (codes "web")) first_saved))
        (upserted (named (codes "db")) second_saved))
      (removed (codes "web") first_removed))

target_apply_to_config-target_from_config_example :
    target_apply_to_config
      (target_from_config
        (record start_config { remote_host = codes "10.0.0.7" })
        (some (codes "web")))
      start_config
    ≡ with_connection (record start_config { remote_host = codes "10.0.0.7" }) start_config
unfolding copy_bounded
target_apply_to_config-target_from_config_example =
    target_apply_to_config-target_from_config
      (record start_config { remote_host = codes "10.0.0.7" }) start_config (some (codes "web"))
      (record {
        host_fits = omega arith;
        user_fits = omega arith;
        password_fits = omega arith;
        identity_fits = omega arith;
        binary_fits = omega arith;
        file_fits = omega arith;
      })

json_read_string-json_write_string_example :
    json_read_string 64 (json_write_string (codes "C:\\bin \"x\"\n") ++ codes ", 22")
    ≡ some (codes "C:\\bin \"x\"\n", codes ", 22")
json_read_string-json_write_string_example =
    json_read_string-json_write_string 64 (codes "C:\\bin \"x\"\n") (codes ", 22")
      (refl, (refl, (refl, (refl, (refl, (refl, (refl, (refl, (refl, (refl, (refl, tt)))))))))))
      (omega arith)

-- Any other control character comes back as the letters of its escape.
control_lost : json_read_string 64 (json_write_string (1 ∷ [])) ≡ some (codes "u0001", [])
unfolding json_read_string json_write_string json_consume json_skip_ws json_string_loop json_escapes
    json_escape unescaped
control_lost = refl
