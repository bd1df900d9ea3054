-- ===== src/Examples/Facts.antt =====
-- Facts about the accesses of the frame that several tests use.
use runen_gpu.Base.{◌≡◌, refl, true, arith, ◌||◌}
use runen_gpu.Access.Kind.{buffer_kind_reads, buffer_kind_writes}
use runen_gpu.Access.Construct.{resource_identity, reads, writes}
use runen_gpu.Graph.Region.Laws.{IsChecked}
use runen_gpu.Graph.Hazards.Pair.{is_hazard}
use runen_gpu.Examples.Data.{written, fetched, drawn}

pub is_hazard-written : is_hazard written fetched ≡ true
unfolding reads writes buffer_kind_reads buffer_kind_writes
is_hazard-written = refl

pub writes-written : (writes written || writes drawn) ≡ true
unfolding writes buffer_kind_writes
writes-written = refl

pub IsChecked-written : IsChecked written
IsChecked-written = (record { nonempty = omega arith; inside = omega arith }, ground arith)

pub same_buffer : resource_identity written ≡ resource_identity fetched
unfolding resource_identity
same_buffer = refl

pub drawn_buffer : resource_identity written ≡ resource_identity drawn
unfolding resource_identity
drawn_buffer = refl
