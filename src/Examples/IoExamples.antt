-- ===== src/Examples/IoExamples.antt =====
-- The containers and their publication on concrete inputs.
use cu_mes.Base.{
  ◌↔◌, pos, ℕ, zero, suc, ◌+◌, ◌≡◌, refl, ap, true, false, none, some, List, [], ◌∷◌, ◌++◌, length,
  replicate, arith,
}
use cu_mes.Io.Outcome.{ok, err, unset}
use cu_mes.Io.Spec.{written}
use cu_mes.Io.Codec.{write_string, read_string}
use cu_mes.Io.CodecLaws.{string_bytes}
use cu_mes.Io.InputRecord.Write.{write_input_params}
use cu_mes.Io.InputRecord.Read.{read_input_params}
use cu_mes.Io.InputRecord.RoundTrip.{stored_part, read-write_input_params}
use cu_mes.Io.Snapshot.{lasym}
use cu_mes.Io.Publish.{FileSystem, Device, publish_atomic, same_path}
use cu_mes.Io.PublishLaws.{Published, publish_atomic-Published}
use cu_mes.Io.Checkpoint.{write_checkpoint, read_checkpoint}
use cu_mes.Io.CheckpointLaws.{state_part}
use cu_mes.Io.Checkpoint.{write_payload}
use cu_mes.Io.SavingLaws.{IsAtomic}
use cu_mes.Io.CheckpointAtomic.{write_checkpoint-IsAtomic}
use cu_mes.Io.CheckpointStore.{read-write_checkpoint, write_checkpoint_succeeds}
use cu_mes.Io.Publish.{publish_library_file}
use cu_mes.Io.PublishLaws.{publish_library_file-Published, atomic_calls, library_calls}
use cu_mes.Io.RestartOffsets.{validate_restart_offsets, IsPartition, validate_restart_offsets_iff}
use cu_mes.Io.StringCap.{long_string_is_lost}
use cu_mes.Examples.Sample.{
  params, params-Fits, params-FitsAsymmetric, state, state-Fits, device, empty_disk, target, tag,
  container_has_room, same_symmetry,
}

write_checkpoint_succeeds_example :
    (write_checkpoint device tag state params target empty_disk).0 ≡ none
write_checkpoint_succeeds_example =
    write_checkpoint_succeeds device tag state params target empty_disk state-Fits params-Fits
      params-FitsAsymmetric same_symmetry refl container_has_room refl refl refl refl refl refl refl

write_checkpoint-IsAtomic_example :
    IsAtomic device tag
      (write_payload state params)
      target
      empty_disk
      (write_checkpoint device tag state params target empty_disk)
write_checkpoint-IsAtomic_example =
    write_checkpoint-IsAtomic device tag state params target empty_disk

read-write_checkpoint_example :
    (read_checkpoint true target (write_checkpoint device tag state params target empty_disk).1
      ≡ ok (state_part state, some (stored_part (lasym state) params)))
    × (read_checkpoint false target (write_checkpoint device tag state params target empty_disk).1
        ≡ ok (state_part state, none))
read-write_checkpoint_example =
    read-write_checkpoint device tag state params target empty_disk state-Fits params-Fits
      params-FitsAsymmetric
      (write_checkpoint_succeeds device tag state params target empty_disk state-Fits params-Fits
        params-FitsAsymmetric same_symmetry refl container_has_room refl refl refl refl refl refl
        refl)

-- A device that can neither rename nor remove.
abbrev stuck_device : Device
stuck_device = record device { renames = false; removes = false }

abbrev one_file : FileSystem
one_file q = some (1 ∷ 2 ∷ [])

publish_atomic-Published_example :
    Published stuck_device
      (atomic_calls stuck_device)
      (some (3 ∷ 4 ∷ []))
      (b't' ∷ [])
      target
      one_file
      (publish_atomic stuck_device (3 ∷ 4 ∷ []) (b't' ∷ []) target one_file)
unfolding same_path
publish_atomic-Published_example =
    publish_atomic-Published stuck_device (b't' ∷ []) target one_file refl (3 ∷ 4 ∷ [])

read-write_input_params_example :
    (bytes : List ℕ) × (write_input_params params true (record { data_bytes = []; room = 5000 })
      ≡ written bytes (record { data_bytes = []; room = 5000 }))
    × ((position : ℕ) (rest : List ℕ)
        → read_input_params true 3 true (record { position = position; rest = bytes ++ rest })
          ≡ ok (params, record { position = position + length bytes; rest = rest }))
read-write_input_params_example =
    read-write_input_params true params (record { data_bytes = []; room = 5000 }) params-Fits
      params-FitsAsymmetric

-- A text of `n` letters.
text : ℕ → List ℕ
text n = replicate n b'A'

length-text : (n : ℕ) → length (text n) ≡ n
unfolding text
length-text zero = refl
length-text (suc n) = ap suc (length-text n)

long_string_is_lost_example :
    (write_string (text 16777217) (record { data_bytes = []; room = 100000000 })
      ≡ written (string_bytes (text 16777217)) (record { data_bytes = []; room = 100000000 }))
    × (read_string (record { position = 0; rest = string_bytes (text 16777217) ++ [] }) ≡ err unset)
long_string_is_lost_example =
    long_string_is_lost (text 16777217) (record { data_bytes = []; room = 100000000 }) 0 []
      (omega (arith, length-text 16777217)) (omega (arith, length-text 16777217))

publish_library_file-Published_example :
    Published stuck_device
      (library_calls stuck_device)
      (one_file (b't' ∷ []))
      (b't' ∷ [])
      target
      one_file
      (publish_library_file stuck_device (b't' ∷ []) target one_file)
unfolding same_path
publish_library_file-Published_example =
    publish_library_file-Published stuck_device (b't' ∷ []) target one_file refl

validate_restart_offsets_iff_example :
    (validate_restart_offsets (pos 0 ∷ pos 2 ∷ pos 2 ∷ []) 3 5 ≡ none)
    ↔ IsPartition (pos 0 ∷ pos 2 ∷ pos 2 ∷ []) 3 5
validate_restart_offsets_iff_example = validate_restart_offsets_iff (pos 0 ∷ pos 2 ∷ pos 2 ∷ []) 3 5
