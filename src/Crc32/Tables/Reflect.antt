-- ===== src/Crc32/Tables/Reflect.antt =====
-- The lookup tables of include/math/crc32.h for the registers that shift to the right.
use liblcb.Base.{ℕ, List, [], ◌∷◌}

unfoldable pub crc32_tbl16_edb88320 : List ℕ
crc32_tbl16_edb88320 =
    0x0000_0000 ∷ 0x1db7_1064 ∷ 0x3b6e_20c8 ∷ 0x26d9_30ac ∷ 0x76dc_4190 ∷ 0x6b6b_51f4 ∷ 0x4db2_6158
    ∷ 0x5005_713c ∷ 0xedb8_8320 ∷ 0xf00f_9344 ∷ 0xd6d6_a3e8 ∷ 0xcb61_b38c ∷ 0x9b64_c2b0
    ∷ 0x86d3_d2d4 ∷ 0xa00a_e278 ∷ 0xbdbd_f21c ∷ []

unfoldable pub crc32_tbl256_edb88320 : List ℕ
crc32_tbl256_edb88320 =
    0x0000_0000 ∷ 0x7707_3096 ∷ 0xee0e_612c ∷ 0x9909_51ba ∷ 0x076d_c419 ∷ 0x706a_f48f ∷ 0xe963_a535
    ∷ 0x9e64_95a3 ∷ 0x0edb_8832 ∷ 0x79dc_b8a4 ∷ 0xe0d5_e91e ∷ 0x97d2_d988 ∷ 0x09b6_4c2b
    ∷ 0x7eb1_7cbd ∷ 0xe7b8_2d07 ∷ 0x90bf_1d91 ∷ 0x1db7_1064 ∷ 0x6ab0_20f2 ∷ 0xf3b9_7148
    ∷ 0x84be_41de ∷ 0x1ada_d47d ∷ 0x6ddd_e4eb ∷ 0xf4d4_b551 ∷ 0x83d3_85c7 ∷ 0x136c_9856
    ∷ 0x646b_a8c0 ∷ 0xfd62_f97a ∷ 0x8a65_c9ec ∷ 0x1401_5c4f ∷ 0x6306_6cd9 ∷ 0xfa0f_3d63
    ∷ 0x8d08_0df5 ∷ 0x3b6e_20c8 ∷ 0x4c69_105e ∷ 0xd560_41e4 ∷ 0xa267_7172 ∷ 0x3c03_e4d1
    ∷ 0x4b04_d447 ∷ 0xd20d_85fd ∷ 0xa50a_b56b ∷ 0x35b5_a8fa ∷ 0x42b2_986c ∷ 0xdbbb_c9d6
    ∷ 0xacbc_f940 ∷ 0x32d8_6ce3 ∷ 0x45df_5c75 ∷ 0xdcd6_0dcf ∷ 0xabd1_3d59 ∷ 0x26d9_30ac
    ∷ 0x51de_003a ∷ 0xc8d7_5180 ∷ 0xbfd0_6116 ∷ 0x21b4_f4b5 ∷ 0x56b3_c423 ∷ 0xcfba_9599
    ∷ 0xb8bd_a50f ∷ 0x2802_b89e ∷ 0x5f05_8808 ∷ 0xc60c_d9b2 ∷ 0xb10b_e924 ∷ 0x2f6f_7c87
    ∷ 0x5868_4c11 ∷ 0xc161_1dab ∷ 0xb666_2d3d ∷ 0x76dc_4190 ∷ 0x01db_7106 ∷ 0x98d2_20bc
    ∷ 0xefd5_102a ∷ 0x71b1_8589 ∷ 0x06b6_b51f ∷ 0x9fbf_e4a5 ∷ 0xe8b8_d433 ∷ 0x7807_c9a2
    ∷ 0x0f00_f934 ∷ 0x9609_a88e ∷ 0xe10e_9818 ∷ 0x7f6a_0dbb ∷ 0x086d_3d2d ∷ 0x9164_6c97
    ∷ 0xe663_5c01 ∷ 0x6b6b_51f4 ∷ 0x1c6c_6162 ∷ 0x8565_30d8 ∷ 0xf262_004e ∷ 0x6c06_95ed
    ∷ 0x1b01_a57b ∷ 0x8208_f4c1 ∷ 0xf50f_c457 ∷ 0x65b0_d9c6 ∷ 0x12b7_e950 ∷ 0x8bbe_b8ea
    ∷ 0xfcb9_887c ∷ 0x62dd_1ddf ∷ 0x15da_2d49 ∷ 0x8cd3_7cf3 ∷ 0xfbd4_4c65 ∷ 0x4db2_6158
    ∷ 0x3ab5_51ce ∷ 0xa3bc_0074 ∷ 0xd4bb_30e2 ∷ 0x4adf_a541 ∷ 0x3dd8_95d7 ∷ 0xa4d1_c46d
    ∷ 0xd3d6_f4fb ∷ 0x4369_e96a ∷ 0x346e_d9fc ∷ 0xad67_8846 ∷ 0xda60_b8d0 ∷ 0x4404_2d73
    ∷ 0x3303_1de5 ∷ 0xaa0a_4c5f ∷ 0xdd0d_7cc9 ∷ 0x5005_713c ∷ 0x2702_41aa ∷ 0xbe0b_1010
    ∷ 0xc90c_2086 ∷ 0x5768_b525 ∷ 0x206f_85b3 ∷ 0xb966_d409 ∷ 0xce61_e49f ∷ 0x5ede_f90e
    ∷ 0x29d9_c998 ∷ 0xb0d0_9822 ∷ 0xc7d7_a8b4 ∷ 0x59b3_3d17 ∷ 0x2eb4_0d81 ∷ 0xb7bd_5c3b
    ∷ 0xc0ba_6cad ∷ 0xedb8_8320 ∷ 0x9abf_b3b6 ∷ 0x03b6_e20c ∷ 0x74b1_d29a ∷ 0xead5_4739
    ∷ 0x9dd2_77af ∷ 0x04db_2615 ∷ 0x73dc_1683 ∷ 0xe363_0b12 ∷ 0x9464_3b84 ∷ 0x0d6d_6a3e
    ∷ 0x7a6a_5aa8 ∷ 0xe40e_cf0b ∷ 0x9309_ff9d ∷ 0x0a00_ae27 ∷ 0x7d07_9eb1 ∷ 0xf00f_9344
    ∷ 0x8708_a3d2 ∷ 0x1e01_f268 ∷ 0x6906_c2fe ∷ 0xf762_575d ∷ 0x8065_67cb ∷ 0x196c_3671
    ∷ 0x6e6b_06e7 ∷ 0xfed4_1b76 ∷ 0x89d3_2be0 ∷ 0x10da_7a5a ∷ 0x67dd_4acc ∷ 0xf9b9_df6f
    ∷ 0x8ebe_eff9 ∷ 0x17b7_be43 ∷ 0x60b0_8ed5 ∷ 0xd6d6_a3e8 ∷ 0xa1d1_937e ∷ 0x38d8_c2c4
    ∷ 0x4fdf_f252 ∷ 0xd1bb_67f1 ∷ 0xa6bc_5767 ∷ 0x3fb5_06dd ∷ 0x48b2_364b ∷ 0xd80d_2bda
    ∷ 0xaf0a_1b4c ∷ 0x3603_4af6 ∷ 0x4104_7a60 ∷ 0xdf60_efc3 ∷ 0xa867_df55 ∷ 0x316e_8eef
    ∷ 0x4669_be79 ∷ 0xcb61_b38c ∷ 0xbc66_831a ∷ 0x256f_d2a0 ∷ 0x5268_e236 ∷ 0xcc0c_7795
    ∷ 0xbb0b_4703 ∷ 0x2202_16b9 ∷ 0x5505_262f ∷ 0xc5ba_3bbe ∷ 0xb2bd_0b28 ∷ 0x2bb4_5a92
    ∷ 0x5cb3_6a04 ∷ 0xc2d7_ffa7 ∷ 0xb5d0_cf31 ∷ 0x2cd9_9e8b ∷ 0x5bde_ae1d ∷ 0x9b64_c2b0
    ∷ 0xec63_f226 ∷ 0x756a_a39c ∷ 0x026d_930a ∷ 0x9c09_06a9 ∷ 0xeb0e_363f ∷ 0x7207_6785
    ∷ 0x0500_5713 ∷ 0x95bf_4a82 ∷ 0xe2b8_7a14 ∷ 0x7bb1_2bae ∷ 0x0cb6_1b38 ∷ 0x92d2_8e9b
    ∷ 0xe5d5_be0d ∷ 0x7cdc_efb7 ∷ 0x0bdb_df21 ∷ 0x86d3_d2d4 ∷ 0xf1d4_e242 ∷ 0x68dd_b3f8
    ∷ 0x1fda_836e ∷ 0x81be_16cd ∷ 0xf6b9_265b ∷ 0x6fb0_77e1 ∷ 0x18b7_4777 ∷ 0x8808_5ae6
    ∷ 0xff0f_6a70 ∷ 0x6606_3bca ∷ 0x1101_0b5c ∷ 0x8f65_9eff ∷ 0xf862_ae69 ∷ 0x616b_ffd3
    ∷ 0x166c_cf45 ∷ 0xa00a_e278 ∷ 0xd70d_d2ee ∷ 0x4e04_8354 ∷ 0x3903_b3c2 ∷ 0xa767_2661
    ∷ 0xd060_16f7 ∷ 0x4969_474d ∷ 0x3e6e_77db ∷ 0xaed1_6a4a ∷ 0xd9d6_5adc ∷ 0x40df_0b66
    ∷ 0x37d8_3bf0 ∷ 0xa9bc_ae53 ∷ 0xdebb_9ec5 ∷ 0x47b2_cf7f ∷ 0x30b5_ffe9 ∷ 0xbdbd_f21c
    ∷ 0xcaba_c28a ∷ 0x53b3_9330 ∷ 0x24b4_a3a6 ∷ 0xbad0_3605 ∷ 0xcdd7_0693 ∷ 0x54de_5729
    ∷ 0x23d9_67bf ∷ 0xb366_7a2e ∷ 0xc461_4ab8 ∷ 0x5d68_1b02 ∷ 0x2a6f_2b94 ∷ 0xb40b_be37
    ∷ 0xc30c_8ea1 ∷ 0x5a05_df1b ∷ 0x2d02_ef8d ∷ []

unfoldable pub crc32_tbl16_1edc6f41 : List ℕ
crc32_tbl16_1edc6f41 =
    0x0000_0000 ∷ 0x105e_c76f ∷ 0x20bd_8ede ∷ 0x30e3_49b1 ∷ 0x417b_1dbc ∷ 0x5125_dad3 ∷ 0x61c6_9362
    ∷ 0x7198_540d ∷ 0x82f6_3b78 ∷ 0x92a8_fc17 ∷ 0xa24b_b5a6 ∷ 0xb215_72c9 ∷ 0xc38d_26c4
    ∷ 0xd3d3_e1ab ∷ 0xe330_a81a ∷ 0xf36e_6f75 ∷ []

unfoldable pub crc32_tbl256_1edc6f41 : List ℕ
crc32_tbl256_1edc6f41 =
    0x0000_0000 ∷ 0xf26b_8303 ∷ 0xe13b_70f7 ∷ 0x1350_f3f4 ∷ 0xc79a_971f ∷ 0x35f1_141c ∷ 0x26a1_e7e8
    ∷ 0xd4ca_64eb ∷ 0x8ad9_58cf ∷ 0x78b2_dbcc ∷ 0x6be2_2838 ∷ 0x9989_ab3b ∷ 0x4d43_cfd0
    ∷ 0xbf28_4cd3 ∷ 0xac78_bf27 ∷ 0x5e13_3c24 ∷ 0x105e_c76f ∷ 0xe235_446c ∷ 0xf165_b798
    ∷ 0x030e_349b ∷ 0xd7c4_5070 ∷ 0x25af_d373 ∷ 0x36ff_2087 ∷ 0xc494_a384 ∷ 0x9a87_9fa0
    ∷ 0x68ec_1ca3 ∷ 0x7bbc_ef57 ∷ 0x89d7_6c54 ∷ 0x5d1d_08bf ∷ 0xaf76_8bbc ∷ 0xbc26_7848
    ∷ 0x4e4d_fb4b ∷ 0x20bd_8ede ∷ 0xd2d6_0ddd ∷ 0xc186_fe29 ∷ 0x33ed_7d2a ∷ 0xe727_19c1
    ∷ 0x154c_9ac2 ∷ 0x061c_6936 ∷ 0xf477_ea35 ∷ 0xaa64_d611 ∷ 0x580f_5512 ∷ 0x4b5f_a6e6
    ∷ 0xb934_25e5 ∷ 0x6dfe_410e ∷ 0x9f95_c20d ∷ 0x8cc5_31f9 ∷ 0x7eae_b2fa ∷ 0x30e3_49b1
    ∷ 0xc288_cab2 ∷ 0xd1d8_3946 ∷ 0x23b3_ba45 ∷ 0xf779_deae ∷ 0x0512_5dad ∷ 0x1642_ae59
    ∷ 0xe429_2d5a ∷ 0xba3a_117e ∷ 0x4851_927d ∷ 0x5b01_6189 ∷ 0xa96a_e28a ∷ 0x7da0_8661
    ∷ 0x8fcb_0562 ∷ 0x9c9b_f696 ∷ 0x6ef0_7595 ∷ 0x417b_1dbc ∷ 0xb310_9ebf ∷ 0xa040_6d4b
    ∷ 0x522b_ee48 ∷ 0x86e1_8aa3 ∷ 0x748a_09a0 ∷ 0x67da_fa54 ∷ 0x95b1_7957 ∷ 0xcba2_4573
    ∷ 0x39c9_c670 ∷ 0x2a99_3584 ∷ 0xd8f2_b687 ∷ 0x0c38_d26c ∷ 0xfe53_516f ∷ 0xed03_a29b
    ∷ 0x1f68_2198 ∷ 0x5125_dad3 ∷ 0xa34e_59d0 ∷ 0xb01e_aa24 ∷ 0x4275_2927 ∷ 0x96bf_4dcc
    ∷ 0x64d4_cecf ∷ 0x7784_3d3b ∷ 0x85ef_be38 ∷ 0xdbfc_821c ∷ 0x2997_011f ∷ 0x3ac7_f2eb
    ∷ 0xc8ac_71e8 ∷ 0x1c66_1503 ∷ 0xee0d_9600 ∷ 0xfd5d_65f4 ∷ 0x0f36_e6f7 ∷ 0x61c6_9362
    ∷ 0x93ad_1061 ∷ 0x80fd_e395 ∷ 0x7296_6096 ∷ 0xa65c_047d ∷ 0x5437_877e ∷ 0x4767_748a
    ∷ 0xb50c_f789 ∷ 0xeb1f_cbad ∷ 0x1974_48ae ∷ 0x0a24_bb5a ∷ 0xf84f_3859 ∷ 0x2c85_5cb2
    ∷ 0xdeee_dfb1 ∷ 0xcdbe_2c45 ∷ 0x3fd5_af46 ∷ 0x7198_540d ∷ 0x83f3_d70e ∷ 0x90a3_24fa
    ∷ 0x62c8_a7f9 ∷ 0xb602_c312 ∷ 0x4469_4011 ∷ 0x5739_b3e5 ∷ 0xa552_30e6 ∷ 0xfb41_0cc2
    ∷ 0x092a_8fc1 ∷ 0x1a7a_7c35 ∷ 0xe811_ff36 ∷ 0x3cdb_9bdd ∷ 0xceb0_18de ∷ 0xdde0_eb2a
    ∷ 0x2f8b_6829 ∷ 0x82f6_3b78 ∷ 0x709d_b87b ∷ 0x63cd_4b8f ∷ 0x91a6_c88c ∷ 0x456c_ac67
    ∷ 0xb707_2f64 ∷ 0xa457_dc90 ∷ 0x563c_5f93 ∷ 0x082f_63b7 ∷ 0xfa44_e0b4 ∷ 0xe914_1340
    ∷ 0x1b7f_9043 ∷ 0xcfb5_f4a8 ∷ 0x3dde_77ab ∷ 0x2e8e_845f ∷ 0xdce5_075c ∷ 0x92a8_fc17
    ∷ 0x60c3_7f14 ∷ 0x7393_8ce0 ∷ 0x81f8_0fe3 ∷ 0x5532_6b08 ∷ 0xa759_e80b ∷ 0xb409_1bff
    ∷ 0x4662_98fc ∷ 0x1871_a4d8 ∷ 0xea1a_27db ∷ 0xf94a_d42f ∷ 0x0b21_572c ∷ 0xdfeb_33c7
    ∷ 0x2d80_b0c4 ∷ 0x3ed0_4330 ∷ 0xccbb_c033 ∷ 0xa24b_b5a6 ∷ 0x5020_36a5 ∷ 0x4370_c551
    ∷ 0xb11b_4652 ∷ 0x65d1_22b9 ∷ 0x97ba_a1ba ∷ 0x84ea_524e ∷ 0x7681_d14d ∷ 0x2892_ed69
    ∷ 0xdaf9_6e6a ∷ 0xc9a9_9d9e ∷ 0x3bc2_1e9d ∷ 0xef08_7a76 ∷ 0x1d63_f975 ∷ 0x0e33_0a81
    ∷ 0xfc58_8982 ∷ 0xb215_72c9 ∷ 0x407e_f1ca ∷ 0x532e_023e ∷ 0xa145_813d ∷ 0x758f_e5d6
    ∷ 0x87e4_66d5 ∷ 0x94b4_9521 ∷ 0x66df_1622 ∷ 0x38cc_2a06 ∷ 0xcaa7_a905 ∷ 0xd9f7_5af1
    ∷ 0x2b9c_d9f2 ∷ 0xff56_bd19 ∷ 0x0d3d_3e1a ∷ 0x1e6d_cdee ∷ 0xec06_4eed ∷ 0xc38d_26c4
    ∷ 0x31e6_a5c7 ∷ 0x22b6_5633 ∷ 0xd0dd_d530 ∷ 0x0417_b1db ∷ 0xf67c_32d8 ∷ 0xe52c_c12c
    ∷ 0x1747_422f ∷ 0x4954_7e0b ∷ 0xbb3f_fd08 ∷ 0xa86f_0efc ∷ 0x5a04_8dff ∷ 0x8ece_e914
    ∷ 0x7ca5_6a17 ∷ 0x6ff5_99e3 ∷ 0x9d9e_1ae0 ∷ 0xd3d3_e1ab ∷ 0x21b8_62a8 ∷ 0x32e8_915c
    ∷ 0xc083_125f ∷ 0x1449_76b4 ∷ 0xe622_f5b7 ∷ 0xf572_0643 ∷ 0x0719_8540 ∷ 0x590a_b964
    ∷ 0xab61_3a67 ∷ 0xb831_c993 ∷ 0x4a5a_4a90 ∷ 0x9e90_2e7b ∷ 0x6cfb_ad78 ∷ 0x7fab_5e8c
    ∷ 0x8dc0_dd8f ∷ 0xe330_a81a ∷ 0x115b_2b19 ∷ 0x020b_d8ed ∷ 0xf060_5bee ∷ 0x24aa_3f05
    ∷ 0xd6c1_bc06 ∷ 0xc591_4ff2 ∷ 0x37fa_ccf1 ∷ 0x69e9_f0d5 ∷ 0x9b82_73d6 ∷ 0x88d2_8022
    ∷ 0x7ab9_0321 ∷ 0xae73_67ca ∷ 0x5c18_e4c9 ∷ 0x4f48_173d ∷ 0xbd23_943e ∷ 0xf36e_6f75
    ∷ 0x0105_ec76 ∷ 0x1255_1f82 ∷ 0xe03e_9c81 ∷ 0x34f4_f86a ∷ 0xc69f_7b69 ∷ 0xd5cf_889d
    ∷ 0x27a4_0b9e ∷ 0x79b7_37ba ∷ 0x8bdc_b4b9 ∷ 0x988c_474d ∷ 0x6ae7_c44e ∷ 0xbe2d_a0a5
    ∷ 0x4c46_23a6 ∷ 0x5f16_d052 ∷ 0xad7d_5351 ∷ []

unfoldable pub crc32_tbl16_a833982b : List ℕ
crc32_tbl16_a833982b =
    0x0000_0000 ∷ 0x4589_ac8d ∷ 0x8b13_591a ∷ 0xce9a_f597 ∷ 0xbe15_2a1f ∷ 0xfb9c_8692 ∷ 0x3506_7305
    ∷ 0x708f_df88 ∷ 0xd419_cc15 ∷ 0x9190_6098 ∷ 0x5f0a_950f ∷ 0x1a83_3982 ∷ 0x6a0c_e60a
    ∷ 0x2f85_4a87 ∷ 0xe11f_bf10 ∷ 0xa496_139d ∷ []

unfoldable pub crc32_tbl256_a833982b : List ℕ
crc32_tbl256_a833982b =
    0x0000_0000 ∷ 0x2bdd_d04f ∷ 0x57bb_a09e ∷ 0x7c66_70d1 ∷ 0xaf77_413c ∷ 0x84aa_9173 ∷ 0xf8cc_e1a2
    ∷ 0xd311_31ed ∷ 0xf6dd_1a53 ∷ 0xdd00_ca1c ∷ 0xa166_bacd ∷ 0x8abb_6a82 ∷ 0x59aa_5b6f
    ∷ 0x7277_8b20 ∷ 0x0e11_fbf1 ∷ 0x25cc_2bbe ∷ 0x4589_ac8d ∷ 0x6e54_7cc2 ∷ 0x1232_0c13
    ∷ 0x39ef_dc5c ∷ 0xeafe_edb1 ∷ 0xc123_3dfe ∷ 0xbd45_4d2f ∷ 0x9698_9d60 ∷ 0xb354_b6de
    ∷ 0x9889_6691 ∷ 0xe4ef_1640 ∷ 0xcf32_c60f ∷ 0x1c23_f7e2 ∷ 0x37fe_27ad ∷ 0x4b98_577c
    ∷ 0x6045_8733 ∷ 0x8b13_591a ∷ 0xa0ce_8955 ∷ 0xdca8_f984 ∷ 0xf775_29cb ∷ 0x2464_1826
    ∷ 0x0fb9_c869 ∷ 0x73df_b8b8 ∷ 0x5802_68f7 ∷ 0x7dce_4349 ∷ 0x5613_9306 ∷ 0x2a75_e3d7
    ∷ 0x01a8_3398 ∷ 0xd2b9_0275 ∷ 0xf964_d23a ∷ 0x8502_a2eb ∷ 0xaedf_72a4 ∷ 0xce9a_f597
    ∷ 0xe547_25d8 ∷ 0x9921_5509 ∷ 0xb2fc_8546 ∷ 0x61ed_b4ab ∷ 0x4a30_64e4 ∷ 0x3656_1435
    ∷ 0x1d8b_c47a ∷ 0x3847_efc4 ∷ 0x139a_3f8b ∷ 0x6ffc_4f5a ∷ 0x4421_9f15 ∷ 0x9730_aef8
    ∷ 0xbced_7eb7 ∷ 0xc08b_0e66 ∷ 0xeb56_de29 ∷ 0xbe15_2a1f ∷ 0x95c8_fa50 ∷ 0xe9ae_8a81
    ∷ 0xc273_5ace ∷ 0x1162_6b23 ∷ 0x3abf_bb6c ∷ 0x46d9_cbbd ∷ 0x6d04_1bf2 ∷ 0x48c8_304c
    ∷ 0x6315_e003 ∷ 0x1f73_90d2 ∷ 0x34ae_409d ∷ 0xe7bf_7170 ∷ 0xcc62_a13f ∷ 0xb004_d1ee
    ∷ 0x9bd9_01a1 ∷ 0xfb9c_8692 ∷ 0xd041_56dd ∷ 0xac27_260c ∷ 0x87fa_f643 ∷ 0x54eb_c7ae
    ∷ 0x7f36_17e1 ∷ 0x0350_6730 ∷ 0x288d_b77f ∷ 0x0d41_9cc1 ∷ 0x269c_4c8e ∷ 0x5afa_3c5f
    ∷ 0x7127_ec10 ∷ 0xa236_ddfd ∷ 0x89eb_0db2 ∷ 0xf58d_7d63 ∷ 0xde50_ad2c ∷ 0x3506_7305
    ∷ 0x1edb_a34a ∷ 0x62bd_d39b ∷ 0x4960_03d4 ∷ 0x9a71_3239 ∷ 0xb1ac_e276 ∷ 0xcdca_92a7
    ∷ 0xe617_42e8 ∷ 0xc3db_6956 ∷ 0xe806_b919 ∷ 0x9460_c9c8 ∷ 0xbfbd_1987 ∷ 0x6cac_286a
    ∷ 0x4771_f825 ∷ 0x3b17_88f4 ∷ 0x10ca_58bb ∷ 0x708f_df88 ∷ 0x5b52_0fc7 ∷ 0x2734_7f16
    ∷ 0x0ce9_af59 ∷ 0xdff8_9eb4 ∷ 0xf425_4efb ∷ 0x8843_3e2a ∷ 0xa39e_ee65 ∷ 0x8652_c5db
    ∷ 0xad8f_1594 ∷ 0xd1e9_6545 ∷ 0xfa34_b50a ∷ 0x2925_84e7 ∷ 0x02f8_54a8 ∷ 0x7e9e_2479
    ∷ 0x5543_f436 ∷ 0xd419_cc15 ∷ 0xffc4_1c5a ∷ 0x83a2_6c8b ∷ 0xa87f_bcc4 ∷ 0x7b6e_8d29
    ∷ 0x50b3_5d66 ∷ 0x2cd5_2db7 ∷ 0x0708_fdf8 ∷ 0x22c4_d646 ∷ 0x0919_0609 ∷ 0x757f_76d8
    ∷ 0x5ea2_a697 ∷ 0x8db3_977a ∷ 0xa66e_4735 ∷ 0xda08_37e4 ∷ 0xf1d5_e7ab ∷ 0x9190_6098
    ∷ 0xba4d_b0d7 ∷ 0xc62b_c006 ∷ 0xedf6_1049 ∷ 0x3ee7_21a4 ∷ 0x153a_f1eb ∷ 0x695c_813a
    ∷ 0x4281_5175 ∷ 0x674d_7acb ∷ 0x4c90_aa84 ∷ 0x30f6_da55 ∷ 0x1b2b_0a1a ∷ 0xc83a_3bf7
    ∷ 0xe3e7_ebb8 ∷ 0x9f81_9b69 ∷ 0xb45c_4b26 ∷ 0x5f0a_950f ∷ 0x74d7_4540 ∷ 0x08b1_3591
    ∷ 0x236c_e5de ∷ 0xf07d_d433 ∷ 0xdba0_047c ∷ 0xa7c6_74ad ∷ 0x8c1b_a4e2 ∷ 0xa9d7_8f5c
    ∷ 0x820a_5f13 ∷ 0xfe6c_2fc2 ∷ 0xd5b1_ff8d ∷ 0x06a0_ce60 ∷ 0x2d7d_1e2f ∷ 0x511b_6efe
    ∷ 0x7ac6_beb1 ∷ 0x1a83_3982 ∷ 0x315e_e9cd ∷ 0x4d38_991c ∷ 0x66e5_4953 ∷ 0xb5f4_78be
    ∷ 0x9e29_a8f1 ∷ 0xe24f_d820 ∷ 0xc992_086f ∷ 0xec5e_23d1 ∷ 0xc783_f39e ∷ 0xbbe5_834f
    ∷ 0x9038_5300 ∷ 0x4329_62ed ∷ 0x68f4_b2a2 ∷ 0x1492_c273 ∷ 0x3f4f_123c ∷ 0x6a0c_e60a
    ∷ 0x41d1_3645 ∷ 0x3db7_4694 ∷ 0x166a_96db ∷ 0xc57b_a736 ∷ 0xeea6_7779 ∷ 0x92c0_07a8
    ∷ 0xb91d_d7e7 ∷ 0x9cd1_fc59 ∷ 0xb70c_2c16 ∷ 0xcb6a_5cc7 ∷ 0xe0b7_8c88 ∷ 0x33a6_bd65
    ∷ 0x187b_6d2a ∷ 0x641d_1dfb ∷ 0x4fc0_cdb4 ∷ 0x2f85_4a87 ∷ 0x0458_9ac8 ∷ 0x783e_ea19
    ∷ 0x53e3_3a56 ∷ 0x80f2_0bbb ∷ 0xab2f_dbf4 ∷ 0xd749_ab25 ∷ 0xfc94_7b6a ∷ 0xd958_50d4
    ∷ 0xf285_809b ∷ 0x8ee3_f04a ∷ 0xa53e_2005 ∷ 0x762f_11e8 ∷ 0x5df2_c1a7 ∷ 0x2194_b176
    ∷ 0x0a49_6139 ∷ 0xe11f_bf10 ∷ 0xcac2_6f5f ∷ 0xb6a4_1f8e ∷ 0x9d79_cfc1 ∷ 0x4e68_fe2c
    ∷ 0x65b5_2e63 ∷ 0x19d3_5eb2 ∷ 0x320e_8efd ∷ 0x17c2_a543 ∷ 0x3c1f_750c ∷ 0x4079_05dd
    ∷ 0x6ba4_d592 ∷ 0xb8b5_e47f ∷ 0x9368_3430 ∷ 0xef0e_44e1 ∷ 0xc4d3_94ae ∷ 0xa496_139d
    ∷ 0x8f4b_c3d2 ∷ 0xf32d_b303 ∷ 0xd8f0_634c ∷ 0x0be1_52a1 ∷ 0x203c_82ee ∷ 0x5c5a_f23f
    ∷ 0x7787_2270 ∷ 0x524b_09ce ∷ 0x7996_d981 ∷ 0x05f0_a950 ∷ 0x2e2d_791f ∷ 0xfd3c_48f2
    ∷ 0xd6e1_98bd ∷ 0xaa87_e86c ∷ 0x815a_3823 ∷ []
