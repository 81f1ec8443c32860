-- ===== src/Patches/Texts.antt =====
-- The texts that the scripts under patches/ look for and put in their place.
use qwen38_flash_next_sglang.Prelude.{◌++◌, Text, codes}

abbrev pub file_compat_orig : Text
file_compat_orig =
    codes "    path = os.path.join(table_dir, ple_table_file_name(shape, dtype, tag))\n"
    ++ codes "    if not os.path.exists(path) or os.path.getsize(path) != nbytes:\n"
    ++ codes "        # Sparse: only pages that get written take disk space.\n"
    ++ codes "        with open(path, \"wb\") as f:\n"
    ++ codes "            f.truncate(nbytes)\n"

abbrev pub file_compat_new : Text
file_compat_new =
    codes "    native = os.path.join(table_dir, ple_table_file_name(shape, dtype, tag))\n"
    ++ codes "    compat = os.path.join(table_dir, \"ple_table_%d_%d.bin\" % (numel, nbytes))\n"
    ++ codes "    if os.path.isfile(compat) and os.path.getsize(compat) == nbytes:\n"
    ++ codes "        path = compat\n"
    ++ codes "        logger.info(\"PLE table: reusing recipe backing file %s\", path)\n"
    ++ codes "    else:\n"
    ++ codes "        path = native\n"
    ++ codes "        if not os.path.exists(path) or os.path.getsize(path) != nbytes:\n"
    ++ codes "            # Sparse: only pages that get written take disk space.\n"
    ++ codes "            with open(path, \"wb\") as f:\n"
    ++ codes "                f.truncate(nbytes)\n"

abbrev pub trtllm_old : Text
trtllm_old =
    codes "    from sglang.srt.utils import is_sm100_supported\n"
    ++ codes "\n"
    ++ codes "    if not is_sm100_supported():\n"
    ++ codes "        return None"

abbrev pub trtllm_new : Text
trtllm_new =
    codes "    from sglang.srt.utils import is_sm100_supported, is_sm120_supported\n"
    ++ codes "\n"
    ++ codes "    # sm_120/121 (consumer Blackwell: GB10 / RTX 50-series) is Blackwell too and\n"
    ++ codes "    # flashinfer ships the trtllm-gen decode kernel for it. The original gate\n"
    ++ codes "    # excludes it, which forces the FA4-cute varlen fallback -- and that one\n"
    ++ codes "    # fails to compile on SM120.\n"
    ++ codes "    if not (is_sm100_supported() or is_sm120_supported()):\n"
    ++ codes "        return None"

abbrev pub drop_sdpa_old : Text
drop_sdpa_old =
    codes "        metadata = self._resolve_metadata(forward_batch)\n"
    ++ codes "        topk_indices = topk_indices.to(torch.int32).contiguous()\n"
    ++ codes "        if is_sm121():\n"
    ++ codes "            return self._forward_sm121_sdpa_sparse(\n"
    ++ codes "                q, k_buffer, v_buffer, layer, metadata, topk_indices\n"
    ++ codes "            )\n"
    ++ codes "        trtllm_decode = _resolve_trtllm_sparse_decode()\n"

abbrev pub drop_sdpa_new : Text
drop_sdpa_new =
    codes "        metadata = self._resolve_metadata(forward_batch)\n"
    ++ codes "        topk_indices = topk_indices.to(torch.int32).contiguous()\n"
    ++ codes "        trtllm_decode = _resolve_trtllm_sparse_decode()\n"

abbrev pub clamp_old : Text
clamp_old =
    codes "            source_keys = token_k\n"
    ++ codes "            source_rope = metadata.extend_rope_matrix\n"

abbrev pub clamp_new : Text
clamp_new =
    codes "            source_keys = token_k\n"
    ++ codes "            group_locs = group_locs.clamp_max(source_keys.shape[0] - 1)\n"
    ++ codes "            source_rope = metadata.extend_rope_matrix\n"

abbrev pub pread_init_old : Text
pread_init_old =
    codes "        self._fd = os.open(path, os.O_RDONLY)\n"
    ++ codes "        self._row_bytes = int(row_bytes)\n"
    ++ codes "        self._min_rows = int(min_rows)\n"
    ++ codes "        self._pool = ThreadPoolExecutor(max_workers=1)\n"

abbrev pub pread_init_new : Text
pread_init_new =
    codes "        self._fd = os.open(path, os.O_RDONLY)\n"
    ++ codes "        self._row_bytes = int(row_bytes)\n"
    ++ codes "        self._min_rows = int(min_rows)\n"
    ++ codes
        "        self._mode = os.environ.get(\"SGLANG_QWEN4_PLE_FILE_PREFETCH_MODE\", \"willneed\")\n"
    ++ codes "        self._threads = max(\n"
    ++ codes
        "            1, int(os.environ.get(\"SGLANG_QWEN4_PLE_FILE_PREFETCH_THREADS\", \"16\"))\n"
    ++ codes "        )\n"
    ++ codes "        self._pool = ThreadPoolExecutor(\n"
    ++ codes "            max_workers=self._threads if self._mode == \"pread\" else 1\n"
    ++ codes "        )\n"
    ++ codes "        if self._mode == \"pread\":\n"
    ++ codes "            logger.info(\n"
    ++ codes
        "                \"PLE table: synchronous pread prefetch on %d threads\", self._threads\n"
    ++ codes "            )\n"

abbrev pub pread_advise_old : Text
pread_advise_old = codes "    def enqueue(\n" ++ codes "        self,"

abbrev pub pread_advise_new : Text
pread_advise_new =
    codes "    def _read_pages(self, pages: list[int]) -> None:\n"
    ++ codes "        page = 1 << _PAGE_SHIFT\n"
    ++ codes "        for p in pages:\n"
    ++ codes "            try:\n"
    ++ codes "                os.pread(self._fd, page, p << _PAGE_SHIFT)\n"
    ++ codes "            except OSError:\n"
    ++ codes "                return\n"
    ++ codes "\n"
    ++ codes "    def enqueue(\n"
    ++ codes "        self,"

abbrev pub pread_submit_old : Text
pread_submit_old =
    codes "        pages = self.pages_for_rows(row_ids, self._row_bytes)\n"
    ++ codes "        self._pool.submit(self._advise, pages)\n"
    ++ codes "        return True\n"

abbrev pub pread_submit_new : Text
pread_submit_new =
    codes "        pages = self.pages_for_rows(row_ids, self._row_bytes)\n"
    ++ codes "        if self._mode == \"pread\":\n"
    ++ codes "            # Populate the page cache in parallel and wait, so the gather kernel\n"
    ++ codes "            # never takes a major fault on these rows.\n"
    ++ codes "            step = (len(pages) + self._threads - 1) // self._threads\n"
    ++ codes "            futures = [\n"
    ++ codes "                self._pool.submit(self._read_pages, pages[i : i + step])\n"
    ++ codes "                for i in range(0, len(pages), step)\n"
    ++ codes "            ]\n"
    ++ codes "            for future in futures:\n"
    ++ codes "                future.result()\n"
    ++ codes "            return True\n"
    ++ codes "        self._pool.submit(self._advise, pages)\n"
    ++ codes "        return True\n"

abbrev pub presharded_dump_old : Text
presharded_dump_old =
    codes "            state_dict = dict(model.state_dict())\n"
    ++ codes "            extras = self._collect_extra_tensors(model)\n"
    ++ codes
        "            self._dump_state_to_disk(state_dict, extras, presharded_dir, shard_config)\n"

abbrev pub presharded_dump_new : Text
presharded_dump_new =
    codes "            state_dict = {\n"
    ++ codes "                k: v for k, v in model.state_dict().items()\n"
    ++ codes "                if not _is_ple_table_key(k)\n"
    ++ codes "            }\n"
    ++ codes "            extras = self._collect_extra_tensors(model)\n"
    ++ codes
        "            self._dump_state_to_disk(state_dict, extras, presharded_dir, shard_config)\n"

abbrev pub presharded_load_old : Text
presharded_load_old =
    codes "            state_dict = dict(model.state_dict())\n"
    ++ codes "            reads = plan.get(\"rank_to_reads\", {}).get(str(rank), [])\n"

abbrev pub presharded_load_new : Text
presharded_load_new =
    codes "            # The PLE table is not in the cache; its backing file already holds\n"
    ++ codes "            # the verified rows, so it must not count as a missing parameter.\n"
    ++ codes "            state_dict = {\n"
    ++ codes "                k: v for k, v in model.state_dict().items()\n"
    ++ codes "                if not _is_ple_table_key(k)\n"
    ++ codes "            }\n"
    ++ codes "            reads = plan.get(\"rank_to_reads\", {}).get(str(rank), [])\n"

abbrev pub presharded_dispatch_old : Text
presharded_dispatch_old = codes "    modelopt_config = load_config.modelopt_config\n"

abbrev pub presharded_dispatch_new : Text
presharded_dispatch_new =
    codes "    if load_config.load_format == LoadFormat.PRESHARDED:\n"
    ++ codes "        return PreshardedModelLoader(load_config)\n"
    ++ codes "\n"
    ++ codes "    modelopt_config = load_config.modelopt_config\n"

abbrev pub presharded_validate_old : Text
presharded_validate_old =
    codes "    allowed_keys = {\"enable_multithread_load\", \"num_threads\"}\n"

abbrev pub presharded_validate_new : Text
presharded_validate_new =
    codes "    allowed_keys = {\n"
    ++ codes "        \"enable_multithread_load\",\n"
    ++ codes "        \"num_threads\",\n"
    ++ codes "        \"presharded_path\",\n"
    ++ codes "        \"draft_presharded_path\",\n"
    ++ codes "    }\n"

abbrev pub presharded_helper_anchor : Text
presharded_helper_anchor = codes "class PreshardedModelLoader(DefaultModelLoader):"

abbrev pub presharded_helper : Text
presharded_helper =
    codes "def _is_ple_table_key(name: str) -> bool:\n"
    ++ codes
        "    \"\"\"The offloaded PLE n-gram table, which lives in its own backing file.\"\"\"\n"
    ++ codes "    return name.endswith(\".ngram_embedding.weight\")\n"
    ++ codes "\n"
    ++ codes "\n"

abbrev pub mtp_old : Text
mtp_old = codes "class Qwen4ExpForCausalLMMTP(Qwen3_5ForCausalLMMTP):\n"

abbrev pub mtp_new : Text
mtp_new =
    codes "class Qwen4ExpForCausalLMMTP(Qwen3_5ForCausalLMMTP):\n"
    ++ codes "    @staticmethod\n"
    ++ codes "    def checkpoint_key_filter(name: str) -> bool:\n"
    ++ codes "        # Mirrors Qwen3_5ForCausalLMMTP.load_weights, which skips every name\n"
    ++ codes "        # without \"mtp\": the loader then reads only the files holding MTP keys.\n"
    ++ codes "        return \"mtp\" in name\n"
    ++ codes "\n"
