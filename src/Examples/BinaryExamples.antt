-- ===== src/Examples/BinaryExamples.antt =====
-- The versioned binary container and the choice of a format on concrete inputs.
use cu_mes.Base.{◌++◌, ◌≡◌, refl, true, false, none, some}
use cu_mes.Io.Outcome.{ok}
use cu_mes.Io.Snapshot.{lasym}
use cu_mes.Io.SavingLaws.{IsAtomic}
use cu_mes.Io.TrailerBack.{report_part}
use cu_mes.Io.VersionedBinary.{write_binary_payload, write_atomic, read_binary}
use cu_mes.Io.VersionedStore.{write_atomic-IsAtomic, read-write_atomic, write_atomic_succeeds}
use cu_mes.Io.InputParams.{codes}
use cu_mes.Io.Publish.{same_path}
use cu_mes.Io.OutputSpec.{
  netcdf, hdf5, output_suffix, has_dot, extension, same_text, suffix_format, resolve_output_spec,
  resolve_output_spec-output_suffix,
}
use cu_mes.Examples.Sample.{params-FitsAsymmetric, device, empty_disk, target, tag}
use cu_mes.Examples.ReportSample.{
  full_state, full_state-Fits, full_state-FitsDerived, report, report-Fits, report_symmetry,
  binary_has_room,
}

write_atomic_succeeds_example :
    (write_atomic device tag full_state report target empty_disk).0 ≡ none
write_atomic_succeeds_example =
    write_atomic_succeeds device tag full_state report target empty_disk full_state-Fits
      full_state-FitsDerived report-Fits params-FitsAsymmetric report_symmetry refl binary_has_room
      refl refl refl refl refl refl refl

write_atomic-IsAtomic_example :
    IsAtomic device tag
      (write_binary_payload full_state report)
      target
      empty_disk
      (write_atomic device tag full_state report target empty_disk)
write_atomic-IsAtomic_example = write_atomic-IsAtomic device tag full_state report target empty_disk

read-write_atomic_example :
    (read_binary true target (write_atomic device tag full_state report target empty_disk).1
      ≡ ok (full_state, some (report_part (lasym full_state) report)))
    × (read_binary false target (write_atomic device tag full_state report target empty_disk).1
        ≡ ok (full_state, none))
read-write_atomic_example =
    read-write_atomic device tag full_state report target empty_disk full_state-Fits
      full_state-FitsDerived report-Fits params-FitsAsymmetric
      (write_atomic_succeeds device tag full_state report target empty_disk full_state-Fits
        full_state-FitsDerived report-Fits params-FitsAsymmetric report_symmetry refl
        binary_has_room refl refl refl refl refl refl refl)

resolve_output_spec-output_suffix_example :
    resolve_output_spec (codes "run.v2" ++ output_suffix netcdf)
    ≡ some (record { format = netcdf; path = codes "run.v2" ++ output_suffix netcdf })
resolve_output_spec-output_suffix_example =
    resolve_output_spec-output_suffix (codes "run.v2") netcdf

-- The longer HDF5 suffix, in capitals.
long_suffix : suffix_format (codes "a.HDF5") ≡ some hdf5
unfolding suffix_format extension has_dot same_text same_path
long_suffix = refl
