-- ===== src/Policy/Kinds.antt =====
-- internal/influxql/classifier.go: the kinds of statement that the type switch takes for reads.
use influxdb_desk.Base.{◌≡◌, refl, ◌↔◌}
use influxdb_desk.Policy.{Kind, read_only, classify_kind}

-- The 21 SHOW statements that may be sent without an unlock, one by one.
abbrev pub Shows : Kind → Type 0
Shows Kind.show_continuous_queries = Unit {0}
Shows Kind.show_databases = Unit {0}
Shows Kind.show_diagnostics = Unit {0}
Shows Kind.show_field_key_cardinality = Unit {0}
Shows Kind.show_field_keys = Unit {0}
Shows Kind.show_grants_for_user = Unit {0}
Shows Kind.show_measurement_cardinality = Unit {0}
Shows Kind.show_measurements = Unit {0}
Shows Kind.show_queries = Unit {0}
Shows Kind.show_retention_policies = Unit {0}
Shows Kind.show_series_cardinality = Unit {0}
Shows Kind.show_series = Unit {0}
Shows Kind.show_shard_groups = Unit {0}
Shows Kind.show_shards = Unit {0}
Shows Kind.show_stats = Unit {0}
Shows Kind.show_subscriptions = Unit {0}
Shows Kind.show_tag_key_cardinality = Unit {0}
Shows Kind.show_tag_keys = Unit {0}
Shows Kind.show_tag_values_cardinality = Unit {0}
Shows Kind.show_tag_values = Unit {0}
Shows Kind.show_users = Unit {0}
Shows Kind.alter_retention_policy = ⊥
Shows Kind.create_continuous_query = ⊥
Shows Kind.create_database = ⊥
Shows Kind.create_retention_policy = ⊥
Shows Kind.create_user = ⊥
Shows Kind.delete_series = ⊥
Shows Kind.delete = ⊥
Shows Kind.drop_continuous_query = ⊥
Shows Kind.drop_database = ⊥
Shows Kind.drop_measurement = ⊥
Shows Kind.drop_retention_policy = ⊥
Shows Kind.drop_series = ⊥
Shows Kind.drop_user = ⊥
Shows Kind.grant_admin = ⊥
Shows Kind.grant = ⊥
Shows Kind.kill_query = ⊥
Shows Kind.revoke_admin = ⊥
Shows Kind.revoke = ⊥
Shows Kind.set_password_user = ⊥
Shows Kind.create_subscription = ⊥
Shows Kind.drop_shard = ⊥
Shows Kind.drop_subscription = ⊥
Shows Kind.other = ⊥

pub classify_kind-Shows : (k : Kind) → (classify_kind k ≡ read_only) ↔ Shows k
unfolding classify_kind
classify_kind-Shows Kind.show_continuous_queries = (λ h. tt, λ h. refl)
classify_kind-Shows Kind.show_databases = (λ h. tt, λ h. refl)
classify_kind-Shows Kind.show_diagnostics = (λ h. tt, λ h. refl)
classify_kind-Shows Kind.show_field_key_cardinality = (λ h. tt, λ h. refl)
classify_kind-Shows Kind.show_field_keys = (λ h. tt, λ h. refl)
classify_kind-Shows Kind.show_grants_for_user = (λ h. tt, λ h. refl)
classify_kind-Shows Kind.show_measurement_cardinality = (λ h. tt, λ h. refl)
classify_kind-Shows Kind.show_measurements = (λ h. tt, λ h. refl)
classify_kind-Shows Kind.show_queries = (λ h. tt, λ h. refl)
classify_kind-Shows Kind.show_retention_policies = (λ h. tt, λ h. refl)
classify_kind-Shows Kind.show_series_cardinality = (λ h. tt, λ h. refl)
classify_kind-Shows Kind.show_series = (λ h. tt, λ h. refl)
classify_kind-Shows Kind.show_shard_groups = (λ h. tt, λ h. refl)
classify_kind-Shows Kind.show_shards = (λ h. tt, λ h. refl)
classify_kind-Shows Kind.show_stats = (λ h. tt, λ h. refl)
classify_kind-Shows Kind.show_subscriptions = (λ h. tt, λ h. refl)
classify_kind-Shows Kind.show_tag_key_cardinality = (λ h. tt, λ h. refl)
classify_kind-Shows Kind.show_tag_keys = (λ h. tt, λ h. refl)
classify_kind-Shows Kind.show_tag_values_cardinality = (λ h. tt, λ h. refl)
classify_kind-Shows Kind.show_tag_values = (λ h. tt, λ h. refl)
classify_kind-Shows Kind.show_users = (λ h. tt, λ h. refl)
classify_kind-Shows Kind.alter_retention_policy = (λ h. cc, λ h. elim h [ ])
classify_kind-Shows Kind.create_continuous_query = (λ h. cc, λ h. elim h [ ])
classify_kind-Shows Kind.create_database = (λ h. cc, λ h. elim h [ ])
classify_kind-Shows Kind.create_retention_policy = (λ h. cc, λ h. elim h [ ])
classify_kind-Shows Kind.create_user = (λ h. cc, λ h. elim h [ ])
classify_kind-Shows Kind.delete_series = (λ h. cc, λ h. elim h [ ])
classify_kind-Shows Kind.delete = (λ h. cc, λ h. elim h [ ])
classify_kind-Shows Kind.drop_continuous_query = (λ h. cc, λ h. elim h [ ])
classify_kind-Shows Kind.drop_database = (λ h. cc, λ h. elim h [ ])
classify_kind-Shows Kind.drop_measurement = (λ h. cc, λ h. elim h [ ])
classify_kind-Shows Kind.drop_retention_policy = (λ h. cc, λ h. elim h [ ])
classify_kind-Shows Kind.drop_series = (λ h. cc, λ h. elim h [ ])
classify_kind-Shows Kind.drop_user = (λ h. cc, λ h. elim h [ ])
classify_kind-Shows Kind.grant_admin = (λ h. cc, λ h. elim h [ ])
classify_kind-Shows Kind.grant = (λ h. cc, λ h. elim h [ ])
classify_kind-Shows Kind.kill_query = (λ h. cc, λ h. elim h [ ])
classify_kind-Shows Kind.revoke_admin = (λ h. cc, λ h. elim h [ ])
classify_kind-Shows Kind.revoke = (λ h. cc, λ h. elim h [ ])
classify_kind-Shows Kind.set_password_user = (λ h. cc, λ h. elim h [ ])
classify_kind-Shows Kind.create_subscription = (λ h. cc, λ h. elim h [ ])
classify_kind-Shows Kind.drop_shard = (λ h. cc, λ h. elim h [ ])
classify_kind-Shows Kind.drop_subscription = (λ h. cc, λ h. elim h [ ])
classify_kind-Shows Kind.other = (λ h. cc, λ h. elim h [ ])
