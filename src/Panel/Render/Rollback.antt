-- ===== src/Panel/Render/Rollback.antt =====
-- RenderRollbackPayload and clonePayload of services/panel-api/internal/configrender/xray.go.
use lenker_panel.Base.{String, ℤ, append, decimal}
use lenker_panel.Json.{int, text, Fields, put}
use lenker_panel.Json.Wire.{wire_fields}

pub record RollbackInput : Type 0 where
  pub revision_number : ℤ
  pub rollback_target_revision : ℤ
  pub source_revision_id : String
  pub source_revision_number : ℤ

unfoldable pub clone_payload : Fields → Fields
clone_payload target = wire_fields target

unfoldable pub rollback_text : RollbackInput → String
rollback_text input = append "lenker xray vless reality rollback skeleton revision=" (
    append (decimal input.revision_number)
      (append " source_revision=" (decimal input.source_revision_number)))

unfoldable pub render_rollback_payload : Fields → RollbackInput → Fields
unfolding rollback_text clone_payload
render_rollback_payload target input = put "config_text" (text (rollback_text input)) (
    put "config_kind" (text "xray-config-compatible-skeleton") (
      put "source_revision_number" (int input.source_revision_number) (
        put "source_revision_id" (text input.source_revision_id) (
          put "operation_kind" (text "rollback") (
            put "rollback_target_revision" (int input.rollback_target_revision)
              (put "revision_number" (int input.revision_number) (clone_payload target)))))))
