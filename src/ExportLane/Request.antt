-- ===== src/ExportLane/Request.antt =====
-- `validateJobRequest` and the record that `Submit` makes.
use influxdb_desk.Base.{
  String, Bool, true, false, not, ◌&&◌, ◌||◌, List, [], ◌∷◌, str_eq, is_blank, length, is_empty,
  Result, guard, ◌>>◌,
}
use influxdb_desk.ExportLane.{
  QuantumKind, other_kind, Error, invalid_job, Quantum, JobRequest, JobRecord, queued,
}

abbrev known_kind : QuantumKind → Bool
known_kind (other_kind _) = false
known_kind _ = true

unfoldable pub seen_before : String → List String → Bool
seen_before k [] = false
seen_before k (j ∷ seen) = str_eq j k || seen_before k seen

-- The loop over the quanta; `seen` is the set of ids so far.
unfoldable pub validate_quanta : List String → List Quantum → Bool
unfolding seen_before is_blank
validate_quanta seen [] = true
validate_quanta seen (q ∷ qs) =
    not (is_blank q.id || is_blank q.request.query)
    && known_kind q.kind
    && not (seen_before q.id seen)
    && validate_quanta (q.id ∷ seen) qs

unfoldable pub validate_job_request : JobRequest → Result Error (Unit {0})
unfolding validate_quanta is_blank
validate_job_request r = do
  guard
      (not (
        is_blank r.id
        || is_blank r.generation.connection_id
        || is_blank r.generation.generation
        || is_empty r.quanta))
      invalid_job
  guard (validate_quanta [] r.quanta) invalid_job

unfoldable pub new_record : JobRequest → JobRecord
new_record r = record {
  id = r.id;
  generation = r.generation;
  state = queued;
  terminal = false;
  total = length r.quanta;
  completed = 0;
  quanta = r.quanta;
  active_quantum_id = "";
  cancel_flag = false;
  pause_flag = false;
  public_error_code = "";
  claimed = false;
  cancel = false;
  context_done = false;
}
