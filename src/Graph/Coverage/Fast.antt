-- ===== src/Graph/Coverage/Fast.antt =====
-- The quick test of one coverage against another answers yes only when every byte is covered.
use runen_gpu.Base.{ℕ, ◌≡◌, true, arith}
use runen_gpu.Resource.{GpuBufferHandle}
use runen_gpu.Graph.Coverage.{GpuBufferCoverage, dense, strided, fast_contains}
use runen_gpu.Graph.Coverage.Bytes.{CoversByte, IsCoverageOf}
use runen_gpu.Graph.Coverage.Placed.{contains-IsPlaced, placed-HasStridedByte}
use runen_gpu.Graph.Coverage.Runs.{dense_found, HasStridedByte-bounds}

-- When the quick test says that one coverage contains another, every byte of the second is a byte
-- of the first.
pub fast_contains-CoversByte :
    (buffer : GpuBufferHandle) (have required : GpuBufferCoverage)
    → IsCoverageOf buffer have
    → IsCoverageOf buffer required
    → fast_contains have required ≡ true
    → (byte : ℕ) → CoversByte required byte
    → CoversByte have byte
unfolding fast_contains
fast_contains-CoversByte buffer (dense have) (dense required) v w h byte b = ground arith
fast_contains-CoversByte buffer (dense have) (strided required) v w h byte b =
    ground (arith, HasStridedByte-bounds required w.1 byte b)
fast_contains-CoversByte buffer (strided have) (dense required) v w h byte b =
    dense_found have v.1 required byte h b
fast_contains-CoversByte buffer (strided have) (strided required) v w h byte b =
    placed-HasStridedByte have required (contains-IsPlaced have required h) byte b
